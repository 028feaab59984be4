-- ===== src/Userinfo/InMemory/Members.antt =====
-- The loops of `rebuild_gid_cache` of src/userinfo.c over groups and their members.
use mathlib.Core.List.{map, append_assoc, append-nil}
use mathlib.Core.Path.{subst, ap₂}
use mathlib.Core.Option
use bindfs.Base.{
  ℕ, ◌+◌, ◌*◌, ◌^◌, ◌≤◌, ◌<◌, ◌≡◌, refl, sym, ap, ◌∙◌, inl, inr, List, [], ◌∷◌, ◌++◌, Option, none,
  some, All, All-Mem, Option-cases, length, arith,
}
use bindfs.Base.Int.{pos}
use bindfs.Base.Text.{Bytes}
use bindfs.Base.Maybe.{Returns, Returns->>=, Returns-map}
use bindfs.Misc.Memory.{MemoryBlock}
use bindfs.Userinfo.Cache.{
  UidCacheEntry, GidCacheEntry, Group, Databases, to_int, uid_cache_name_searchcmp, member_uids,
  gid_entries,
}
use bindfs.Userinfo.Spec.{IsSorting}
use bindfs.Userinfo.InMemory.{
  UidRecord, GidRecord, name_of, uids_of, store_uid, store_members, gid_records,
}
use bindfs.Userinfo.InMemory.Texts.{words}
use bindfs.Userinfo.InMemory.Users.{
  IsFilled, Grows, Grows-trans, to_int_small, IsStored, HasName-Grows, name_of_lem, user_of,
}
use bindfs.Userinfo.InMemory.Groups.{
  IsUniform, HasUids, uids_of_lem, IsExtended, store_uid-IsExtended,
}

-- The records of users, with what they stand for.
abbrev pub StandFor : MemoryBlock → List UidRecord → List UidCacheEntry → Type 0
StandFor a es entries = All (IsStored a) es × (map (user_of a) es ≡ entries)

pub StandFor-Grows :
    (a b : MemoryBlock) (es : List UidRecord) (entries : List UidCacheEntry)
    → Grows a b
    → StandFor a es entries
    → StandFor b es entries
StandFor-Grows a b [] entries grown (stored, same) = (tt, same)
StandFor-Grows a b (e ∷ es) entries grown (((id, (name, named)), stored), same) =
    let later = HasName-Grows a b e name grown named in
    let (stored', same') = StandFor-Grows a b es (map (user_of a) es) grown (stored, refl) in
    let one : user_of b e ≡ user_of a e =
      rw (name_of_lem a e name named, name_of_lem b e name later) refl in
    (((id, (name, later)), stored'), ap₂ (λ d ds. d ∷ ds) one same' ∙ same)

IsExtended-more :
    (a b : MemoryBlock) (g h : GidRecord) (uids : List ℕ) (m n k : ℕ) (x : GidRecord × MemoryBlock)
    → h.gid ≡ g.gid
    → Grows a b
    → b.size ≤ a.size + m
    → m + n ≤ k
    → IsExtended b h uids n x
    → IsExtended a g uids k x
IsExtended-more a b g h uids m n k (g', c) id grown size fits (has, id', filled, grown', size') =
    (has, id' ∙ id, filled, Grows-trans a b c grown grown', omega arith)

HasUids-Grows :
    (a b : MemoryBlock) (g : GidRecord) (uids : List ℕ) (rest : Bytes)
    → Grows a b
    → HasUids a g uids rest
    → (rest' : Bytes) × HasUids b g uids rest'
HasUids-Grows a b g uids rest (more, grown) (front, bytes, offset, count, small) = (
  rest ++ more,
  (
    front,
    grown
        ∙ rw
            (
              bytes,
              append_assoc front (words uids ++ rest) more,
              append_assoc (words uids) rest more,
            )
            refl,
    offset,
    count,
    small,
  ),
)

-- What an entry of a group stands for.
abbrev pub group_of : MemoryBlock → GidRecord → GidCacheEntry
group_of a g = record { gid = g.gid; uids = uids_of a g }

-- The bytes that the ids of members take, where all are found.
abbrev pub member_room : List Group → ℕ
member_room [] = 0
member_room (gr ∷ grs) = 4 * length gr.gr_mem + member_room grs

module _ (sys : Databases) (sorting : IsSorting sys) (uniform : IsUniform sys) (es : List UidRecord)
    (entries : List UidCacheEntry) where
  -- A search among the records gives the record of what a search among the entries gives.
  found :
      (a : MemoryBlock) (name : Bytes) (o : Option UidRecord)
      → StandFor a es entries
      → sys.bsearch (λ k e. sys.strcmp k (name_of a e)) name es ≡ o
      → sys.bsearch (λ k e. uid_cache_name_searchcmp sys k e) name entries
        ≡ Option.map (user_of a) o
  found a name o (stored, same) e = sym (
      ap (Option.map (user_of a)) (sym e)
      ∙ uniform.bsearch_map (user_of a) (λ k d. uid_cache_name_searchcmp sys k d) name es
      ∙ ap (λ ds. sys.bsearch (λ k d. uid_cache_name_searchcmp sys k d) name ds) same)

  pub store_members-IsExtended :
      (names : List Bytes) (g : GidRecord) (a : MemoryBlock) (uids : List ℕ)
      → StandFor a es entries
      → IsFilled a
      → HasUids a g uids []
      → a.size + 4 * length names < 2 ^ 31
      → Returns
          (IsExtended a g (uids ++ member_uids sys entries names) (4 * length names))
          (store_members sys es names g a)
  unfolding store_members member_uids
  store_members-IsExtended [] g a uids stand filled has room = (
    subst (λ x. HasUids a g x []) (sym (append-nil uids)) has,
    refl,
    filled,
    ([], sym (append-nil a.bytes)),
    omega arith,
  )
  store_members-IsExtended (name ∷ names) g a uids stand filled has room =
      let members = member_uids sys entries names in
      elim (Option-cases (sys.bsearch (λ k e. sys.strcmp k (name_of a e)) name es)) [
        | inl n ↦
            rw (n, store_members, found a name none stand n)
              (Returns-map (IsExtended a g (uids ++ members) (4 * length names)) _
                (store_members sys es names g a)
                (λ x.
                  IsExtended-more a a g g (uids ++ members) 0 (4 * length names)
                    (4 * length (name ∷ names)) x refl ([], sym (append-nil a.bytes)) (omega arith)
                    (omega arith))
                (store_members-IsExtended names g a uids stand filled has (omega (arith, room))))
        | inr (e, n) ↦
            let id =
              (All-Mem (IsStored a) es e stand.0
                (sorting.bsearch_finds (λ k e'. sys.strcmp k (name_of a e')) name es e n).0).0 in
            rw (n, store_members, found a name (some e) stand n)
              (Returns->>= (IsExtended a g (uids ++ e.uid ∷ []) 4) _ (store_uid e.uid g a) _
                (store_uid-IsExtended a g uids e.uid filled has id (omega (arith, room)))
                λ (h, b) (has', id', filled', grown, size).
                  subst
                    (λ us.
                      Returns (IsExtended a g us (4 * length (name ∷ names)))
                        (store_members sys es names h b))
                    (append_assoc uids (e.uid ∷ []) members)
                    (Returns-map
                      (IsExtended b h ((uids ++ e.uid ∷ []) ++ members) (4 * length names)) _
                      (store_members sys es names h b)
                      (λ x.
                        IsExtended-more a b g h ((uids ++ e.uid ∷ []) ++ members) 4
                          (4 * length names) (4 * length (name ∷ names)) x id' grown size
                          (omega arith))
                      (store_members-IsExtended names h b (uids ++ e.uid ∷ [])
                        (StandFor-Grows a b es entries grown stand) filled' has'
                        (omega (arith, room, size)))))
      ]

  pub gid_records-same :
      (grs : List Group) (a : MemoryBlock)
      → StandFor a es entries
      → IsFilled a
      → a.size + member_room grs < 2 ^ 31
      → Returns
          (λ (gs, b). (map (group_of b) gs ≡ gid_entries sys entries grs) × Grows a b)
          (gid_records sys es grs a)
  unfolding gid_records gid_entries
  gid_records-same [] a stand filled room = (refl, ([], sym (append-nil a.bytes)))
  gid_records-same (gr ∷ grs) a stand filled room =
      let uids = member_uids sys entries gr.gr_mem in
      let g : GidRecord = record {
        gid = gr.gr_gid;
        uid_count = 0;
        uids_offset = to_int (pos a.size);
      } in
      let offset : to_int (pos a.size) ≡ pos (length a.bytes) =
        to_int_small a.size (omega (arith, room)) ∙ ap pos filled in
      Returns->>= (IsExtended a g uids (4 * length gr.gr_mem)) _
        (store_members sys es gr.gr_mem g a) _
        (store_members-IsExtended gr.gr_mem g a [] stand filled
          (a.bytes, sym (append-nil a.bytes), offset, refl, tt) (omega (arith, room)))
        λ (h, b) (has, id, filled', grown, size).
          Returns->>= (λ (gs, c). (map (group_of c) gs ≡ gid_entries sys entries grs) × Grows b c) _
            (gid_records sys es grs b) _
            (gid_records-same grs b (StandFor-Grows a b es entries grown stand) filled'
              (omega (arith, room, size)))
            λ (gs, c) (same, grown').
              let (rest, has') = HasUids-Grows b c h uids [] grown' has in
              let one : group_of c h ≡ record { gid = gr.gr_gid; uids = uids } =
                rw (uids_of_lem c h uids rest has', id) refl in
              (ap₂ (λ d ds. d ∷ ds) one same, Grows-trans a b c grown grown')
