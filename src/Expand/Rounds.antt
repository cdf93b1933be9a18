-- ===== src/Expand/Rounds.antt =====
-- The loop of DoExpand of internal/datanode.go ends, and what it finds.
use tinydfs_master.Base.{
  ℕ, zero, suc, ◌+◌, ◌≡◌, ◌≤◌, ◌<◌, refl, Bool, true, false, ◌&&◌, ◌||◌, Option, some, List, [],
  ◌∷◌, ◌==◌, nat_eq, nat_list_eq, if◌then◌else◌, contains, length, GoString, arith, Bool-cases,
  Option-cases, inl, inr, subst, some-injective,
}
use tinydfs_master.Base.GoMap
use tinydfs_master.Base.GoMap.{GoMap}
use tinydfs_master.External.{Common, StringSet}
use tinydfs_master.DataNodes.{DataNodeMap}
use tinydfs_master.Expand.{Search, first_new, take_chunk, note_sender, is_enough, visit, rounds}

-- Each sender has one chunk to send.
abbrev pub AllSingle : GoMap GoString (List GoString) → Type 0
AllSingle [] = Unit {0}
AllSingle ((_, chunks) ∷ plan) = (length chunks ≡ 1) × AllSingle plan

insert-AllSingle :
    (id chunk : GoString) (plan : GoMap GoString (List GoString))
    → AllSingle plan
    → AllSingle (GoMap.insert id (chunk ∷ []) plan)
unfolding GoMap.insert
insert-AllSingle id chunk [] single = (refl, tt)
insert-AllSingle id chunk ((other, chunks) ∷ plan) (one, single) = elim (Bool-cases (other == id)) [
  | inl same ↦
      let replaced : AllSingle ((id, chunk ∷ []) ∷ plan) = (refl, single) in
      rw (same, GoMap.insert) replaced
  | inr differs ↦ rw (differs, GoMap.insert) (one, insert-AllSingle id chunk plan single)
]

note_sender-AllSingle :
    (id chunk : GoString) (plan : GoMap GoString (List GoString))
    → AllSingle plan
    → AllSingle (note_sender id chunk plan)
unfolding note_sender
note_sender-AllSingle id chunk plan single = elim (Option-cases (GoMap.lookup id plan)) [
  | inl absent ↦ rw (absent, note_sender) (insert-AllSingle id chunk plan single)
  | inr (chunks, there) ↦ rw (there, note_sender) single
]

module _ {S : Type 0} ⦃s : StringSet S⦄ where
  -- How many of the chunks are not pending.
  abbrev pub missing : S → List GoString → ℕ
  missing pending [] = 0
  missing pending (id ∷ ids) =
      if s.member pending id then missing pending ids else suc (missing pending ids)

  missing-add-le :
      (pending : S) (x : GoString) (ids : List GoString)
      → missing (s.add pending x) ids ≤ missing pending ids
  missing-add-le pending x [] = omega arith
  missing-add-le pending x (id ∷ ids) =
      ground (arith, s.member-add pending x id, missing-add-le pending x ids)

  missing-add-lt :
      (pending : S) (x : GoString) (ids : List GoString)
      → s.member pending x ≡ false
      → contains ids x ≡ true
      → missing (s.add pending x) ids < missing pending ids
  missing-add-lt pending x [] new there = absurd (ground arith)
  missing-add-lt pending x (id ∷ ids) new there = ground (
    arith,
    new,
    there,
    s.member-add pending x id,
    missing-add-le pending x ids,
    missing-add-lt pending x ids new,
  )

  first_new-found :
      (pending own : S) (ids : List GoString) (x : GoString)
      → first_new pending own ids ≡ some x
      → (s.member pending x ≡ false) × (s.member own x ≡ false) × (contains ids x ≡ true)
  unfolding first_new
  first_new-found pending own [] x e = absurd (ground arith)
  first_new-found pending own (id ∷ ids) x e = ground (arith, e, first_new-found pending own ids x)

module _ {S : Type 0} ⦃c : Common⦄ ⦃s : StringSet S⦄ where
  -- The same over all DataNodes that are alive.
  abbrev pub missing_all : S → DataNodeMap S → ℕ
  missing_all pending [] = 0
  missing_all pending ((_, node) ∷ m) =
      if node.status == c.alive
      then missing pending (s.to_slice node.chunks) + missing_all pending m
      else missing_all pending m

  -- Some DataNode that is alive stores the chunk.
  abbrev pub has : DataNodeMap S → GoString → Bool
  has [] x = false
  has ((_, node) ∷ m) x = (node.status == c.alive && contains (s.to_slice node.chunks) x) || has m x

  missing_all-add-le :
      (pending : S) (x : GoString) (m : DataNodeMap S)
      → missing_all (s.add pending x) m ≤ missing_all pending m
  missing_all-add-le pending x [] = omega arith
  missing_all-add-le pending x ((id, node) ∷ m) =
      ground
        (arith, missing-add-le pending x (s.to_slice node.chunks), missing_all-add-le pending x m)

  missing_all-add-lt :
      (pending : S) (x : GoString) (m : DataNodeMap S)
      → s.member pending x ≡ false
      → has m x ≡ true
      → missing_all (s.add pending x) m < missing_all pending m
  missing_all-add-lt pending x [] new there = absurd (ground arith)
  missing_all-add-lt pending x ((id, node) ∷ m) new there = ground (
    arith,
    there,
    missing-add-le pending x (s.to_slice node.chunks),
    missing-add-lt pending x (s.to_slice node.chunks) new,
    missing_all-add-le pending x m,
    missing_all-add-lt pending x m new,
  )

  module _ (own : S) (count : Option ℕ) (full : DataNodeMap S) where
    -- A pass never makes more chunks missing, and one that finds a chunk makes fewer missing.
    visit-missing :
        (m : DataNodeMap S) (search : Search S) (not_found : Bool)
        → ((x : GoString) → has m x ≡ true → has full x ≡ true)
        → (missing_all (visit own count m search not_found).search.pending_chunks full
            ≤ missing_all search.pending_chunks full)
          × (not_found ≡ true
              → (visit own count m search not_found).not_found ≡ false
              → missing_all (visit own count m search not_found).search.pending_chunks full
                < missing_all search.pending_chunks full)
    unfolding visit take_chunk
    visit-missing [] search not_found within =
        (omega arith, λ all none_found. absurd (ground arith))
    visit-missing ((id, node) ∷ m) search not_found within =
        let rest = visit-missing m search not_found (λ x there. within x (ground (arith, there))) in
        elim (Bool-cases (node.status == c.alive)) [
          | inr idle ↦ rw (idle, visit) rest
          | inl alive ↦
              elim (Option-cases (first_new search.pending_chunks own (s.to_slice node.chunks))) [
                | inl nothing ↦ rw (alive, nothing, visit) rest
                | inr (x, found) ↦
                    let (new, _, there) =
                      first_new-found search.pending_chunks own (s.to_slice node.chunks) x found in
                    let less =
                      missing_all-add-lt search.pending_chunks x full new
                        (within x (ground (arith, alive, there))) in
                    let taken = take_chunk node.id x search in
                    elim (Bool-cases (is_enough count taken)) [
                      | inl enough ↦
                          rw (alive, found, enough, visit) (omega (arith, less), λ _ _. less)
                      | inr more ↦
                          let (le, _) =
                            visit-missing m taken false
                              (λ y in_m. within y (ground (arith, in_m))) in
                          rw (alive, found, more, visit)
                            (omega (arith, less, le), λ _ _. omega (arith, less, le))
                    ]
              ]
        ]

    rounds-some :
        (fuel : ℕ) (search : Search S)
        → missing_all search.pending_chunks full < fuel
        → (found : Search S) × (rounds own count fuel full search ≡ some found)
    unfolding rounds
    rounds-some zero search lt = absurd (omega arith)
    rounds-some (suc fuel) search lt =
        let r = visit own count full search true in
        let less = (visit-missing full search true (λ x there. there)).1 refl in
        elim (Bool-cases r.is_done) [
          | inl done ↦ (r.search, rw (done, rounds) refl)
          | inr going ↦ elim (Bool-cases r.not_found) [
            | inl nothing ↦ (r.search, rw (going, nothing, rounds) refl)
            | inr found_some ↦
                let (found, e) = rounds-some fuel r.search (omega (arith, lt, less found_some)) in
                (found, rw (going, found_some, rounds) e)
          ]
        ]

  abbrev IsSingle : Search S → Type 0
  IsSingle search = AllSingle search.pending_map

  module _ (own : S) (count : Option ℕ) where
    visit-AllSingle :
        (m : DataNodeMap S) (search : Search S) (not_found : Bool)
        → AllSingle search.pending_map
        → AllSingle (visit own count m search not_found).search.pending_map
    unfolding visit take_chunk
    visit-AllSingle [] search not_found single = single
    visit-AllSingle ((id, node) ∷ m) search not_found single =
        elim (Bool-cases (node.status == c.alive)) [
          | inr idle ↦ rw (idle, visit) (visit-AllSingle m search not_found single)
          | inl alive ↦
              elim (Option-cases (first_new search.pending_chunks own (s.to_slice node.chunks))) [
                | inl nothing ↦
                    rw (alive, nothing, visit) (visit-AllSingle m search not_found single)
                | inr (x, found) ↦
                    let taken = take_chunk node.id x search in
                    let kept = note_sender-AllSingle node.id x search.pending_map single in
                    elim (Bool-cases (is_enough count taken)) [
                      | inl enough ↦ rw (alive, found, enough, visit) kept
                      | inr more ↦
                          rw (alive, found, more, visit) (visit-AllSingle m taken false kept)
                    ]
              ]
        ]

    rounds-AllSingle :
        (fuel : ℕ) (m : DataNodeMap S) (search found : Search S)
        → rounds own count fuel m search ≡ some found
        → AllSingle search.pending_map
        → AllSingle found.pending_map
    unfolding rounds
    rounds-AllSingle zero m search found e single = absurd (ground (arith, e))
    rounds-AllSingle (suc fuel) m search found e single =
        let r = visit own count m search true in
        let kept = visit-AllSingle m search true single in
        elim (Bool-cases r.is_done) [
          | inl done ↦ subst IsSingle (some-injective _ _ (rw (done, rounds) at e)) kept
          | inr going ↦ elim (Bool-cases r.not_found) [
            | inl nothing ↦
                subst IsSingle (some-injective _ _ (rw (going, nothing, rounds) at e)) kept
            | inr found_some ↦
                rounds-AllSingle fuel m r.search found (rw (going, found_some, rounds) at e) kept
          ]
        ]

  -- The loop of DoExpand ends on any cluster, after at most as many rounds as the DataNodes that
  -- are alive store chunks that are not pending, and one; if each sender has one chunk to send at
  -- first, as when there is none, then so in its plan.
  pub rounds-end :
      (own : S) (count : Option ℕ) (m : DataNodeMap S) (search : Search S)
      → AllSingle search.pending_map
      → (found : Search S) × (rounds own count (suc (missing_all search.pending_chunks m)) m search
          ≡ some found)
        × AllSingle found.pending_map
  rounds-end own count m search single =
      let fuel = suc (missing_all search.pending_chunks m) in
      let (found, e) = rounds-some own count m fuel search (omega arith) in
      (found, e, rounds-AllSingle own count fuel m search found e single)
