-- ===== src/Misc/Argv/Held.antt =====
-- What `memcpy` leaves in memory, for `dup_argv` of src/misc.c.
use bindfs.Base.{ℕ, ◌+◌, ◌≤◌, ◌<◌, ◌≡◌, ◌⊎◌, refl, ◌∙◌, inl, inr, [], ◌∷◌, ==_self, length, arith}
use bindfs.Base.Text.{Bytes}
use bindfs.Misc.Argv.{Memory, store, write_bytes}

-- Bytes stand at an address.
abbrev pub Holds : Memory → ℕ → Bytes → Type 0
Holds mem address [] = Unit
Holds mem address (c ∷ cs) = (mem address ≡ c) × Holds mem (address + 1) cs

pub write_bytes_outside :
    (bs : Bytes) (mem : Memory) (address k : ℕ)
    → (k < address) ⊎ (address + length bs ≤ k)
    → write_bytes mem address bs k ≡ mem k
unfolding write_bytes
write_bytes_outside [] mem address k h = refl
write_bytes_outside (c ∷ cs) mem address k (inl h) =
    write_bytes_outside cs (store mem address c) (address + 1) k (inl (omega arith)) ∙ ground arith
write_bytes_outside (c ∷ cs) mem address k (inr h) =
    write_bytes_outside cs (store mem address c) (address + 1) k (inr (omega arith)) ∙ ground arith

pub write_bytes-Holds :
    (bs : Bytes) (mem : Memory) (address : ℕ) → Holds (write_bytes mem address bs) address bs
unfolding write_bytes
write_bytes-Holds [] mem address = tt
write_bytes-Holds (c ∷ cs) mem address = (
  write_bytes_outside cs (store mem address c) (address + 1) address (inl (omega arith))
      ∙ rw (==_self address) refl,
  write_bytes-Holds cs (store mem address c) (address + 1),
)

pub Holds-same :
    (bs : Bytes) (mem mem' : Memory) (address : ℕ)
    → ((k : ℕ) → address ≤ k → k < address + length bs → mem' k ≡ mem k)
    → Holds mem address bs
    → Holds mem' address bs
Holds-same [] mem mem' address same h = tt
Holds-same (c ∷ cs) mem mem' address same (h, hs) = (
  same address (omega arith) (omega arith) ∙ h,
  Holds-same cs mem mem' (address + 1) (λ k from to. same k (omega arith) (omega arith)) hs,
)
