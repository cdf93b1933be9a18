-- ===== src/Snapshot/Shared.antt =====
-- What RestoreChunks of internal/chunk.go makes of the lines of Chunk.String.
use tinydfs_master.Base.{
  ◌≡◌, refl, ap, Bool, true, false, ◌||◌, some, List, [], ◌∷◌, ◌++◌, map, ◌==◌, ==-ne, ==-refl,
  nat_eq, nat_list_eq, if◌then◌else◌, contains, GoString, ok, arith, Bool-cases, inl, inr,
}
use tinydfs_master.Base.Strings.{split}
use tinydfs_master.Base.GoMap
use tinydfs_master.Base.GoMap.{lookup, lookup-insert}
use tinydfs_master.External.{StringSet}
use tinydfs_master.State.{Chunk}
use tinydfs_master.Chunks.{ChunksMap}
use tinydfs_master.Operations.{set_of}
use tinydfs_master.Snapshot.Text.{
  SnapshotText, intercalate, bracketed, AllFree, split-intercalate, bracketed-dollar,
  inside-bracketed, contains-middle,
}
use tinydfs_master.Snapshot.Chunks.{chunk_line, read_chunks, shared_chunk, restore_chunks}

-- Splitting the text of an empty list gives one empty string.
abbrev pub named : List GoString → List GoString
named [] = [] ∷ []
named (x ∷ xs) = x ∷ xs

split-named : (xs : List GoString) → AllFree b' ' xs → split b' ' (intercalate b' ' xs) ≡ named xs
unfolding split intercalate
split-named [] frees = refl
split-named (x ∷ xs) frees = split-intercalate b' ' x xs frees

module _ {S : Type 0} ⦃s : StringSet S⦄ where
  -- No `$` and no space in the identifiers.
  abbrev pub IsClean : Chunk S → Type 0
  IsClean chunk =
      (contains chunk.id b'$' ≡ false)
      × (AllFree b'$' (s.to_slice chunk.data_nodes) × AllFree b' ' (s.to_slice chunk.data_nodes))
      × (AllFree b'$' (s.to_slice chunk.pending_data_nodes)
          × AllFree b' ' (s.to_slice chunk.pending_data_nodes))

  abbrev pub AllClean : List (Chunk S) → Type 0
  AllClean [] = Unit {0}
  AllClean (chunk ∷ chunks) = IsClean chunk × AllClean chunks

  -- Some chunk is printed with the identifier.
  abbrev pub mentioned : (Chunk S → S) → List (Chunk S) → GoString → Bool
  mentioned part [] x = false
  mentioned part (chunk ∷ chunks) x =
      contains (named (s.to_slice (part chunk))) x || mentioned part chunks x

  abbrev pub is_known : List (Chunk S) → GoString → Bool
  is_known [] id = false
  is_known (chunk ∷ chunks) id = (chunk.id == id) || is_known chunks id

  abbrev pub gathered : (Chunk S → S) → List (Chunk S) → S → S
  gathered part [] set = set
  gathered part (chunk ∷ chunks) set =
      gathered part chunks (set_of (named (s.to_slice (part chunk))) set)

  abbrev pub all_ids :
      List (Chunk S) → GoMap.GoMap GoString (Unit {0}) → GoMap.GoMap GoString (Unit {0})
  all_ids [] ids = ids
  all_ids (chunk ∷ chunks) ids = all_ids chunks (GoMap.insert chunk.id tt ids)

  member-set_of :
      (ids : List GoString) (set : S) (x : GoString)
      → s.member (set_of ids set) x ≡ (contains ids x || s.member set x)
  unfolding set_of
  member-set_of [] set x = refl
  member-set_of (id ∷ ids) set x =
      ground (arith, member-set_of ids (s.add set id) x, s.member-add set id x)

  member-gathered :
      (part : Chunk S → S) (chunks : List (Chunk S)) (set : S) (x : GoString)
      → s.member (gathered part chunks set) x ≡ (mentioned part chunks x || s.member set x)
  member-gathered part [] set x = refl
  member-gathered part (chunk ∷ chunks) set x = ground (
    arith,
    member-gathered part chunks (set_of (named (s.to_slice (part chunk))) set) x,
    member-set_of (named (s.to_slice (part chunk))) set x,
  )

  chunk_line-dollar : (chunk : Chunk S) → contains (chunk_line chunk) b'$' ≡ true
  unfolding chunk_line intercalate
  chunk_line-dollar chunk = contains-middle chunk.id _ b'$'

  chunk_line-columns :
      (chunk : Chunk S)
      → contains chunk.id b'$' ≡ false
      → AllFree b'$' (s.to_slice chunk.data_nodes)
      → AllFree b'$' (s.to_slice chunk.pending_data_nodes)
      → split b'$' (chunk_line chunk)
        ≡ chunk.id
          ∷ bracketed (s.to_slice chunk.data_nodes)
          ∷ bracketed (s.to_slice chunk.pending_data_nodes)
          ∷ []
  unfolding chunk_line
  chunk_line-columns chunk id_free frees frees' = split-intercalate b'$' chunk.id _ (
    id_free,
    (
      bracketed-dollar (s.to_slice chunk.data_nodes) frees,
      (bracketed-dollar (s.to_slice chunk.pending_data_nodes) frees', tt),
    ),
  )

  read_chunks-lines :
      (text : SnapshotText) (chunks : List (Chunk S)) (left : List GoString)
      (data_nodes pending : S) (ids : GoMap.GoMap GoString (Unit {0}))
      → contains text.snapshot_delimiter b'$' ≡ false
      → AllClean chunks
      → read_chunks text
          (map chunk_line chunks ++ text.snapshot_delimiter ∷ left)
          data_nodes
          pending
          ids
        ≡ ok (record {
          data_nodes = gathered (λ chunk. chunk.data_nodes) chunks data_nodes;
          pending_data_nodes = gathered (λ chunk. chunk.pending_data_nodes) chunks pending;
          ids = all_ids chunks ids;
          left = left;
        })
  unfolding read_chunks
  read_chunks-lines text [] left data_nodes pending ids free clean =
      rw (read_chunks, ==-refl text.snapshot_delimiter) refl
  read_chunks-lines text (chunk ∷ chunks) left data_nodes pending ids free
        ((id_free, (frees, spaces), (frees', spaces')), clean) =
      let not_delimiter : (chunk_line chunk == text.snapshot_delimiter) ≡ false =
        ==-ne (chunk_line chunk) text.snapshot_delimiter (λ same.
          absurd (ground (arith, chunk_line-dollar chunk, free, ap (λ x. contains x b'$') same))) in
      rw
        (
          read_chunks,
          not_delimiter,
          chunk_line-columns chunk id_free frees frees',
          inside-bracketed (s.to_slice chunk.data_nodes),
          inside-bracketed (s.to_slice chunk.pending_data_nodes),
          split-named (s.to_slice chunk.data_nodes) spaces,
          split-named (s.to_slice chunk.pending_data_nodes) spaces',
        )
        (read_chunks-lines text chunks left
          (set_of (named (s.to_slice chunk.data_nodes)) data_nodes)
          (set_of (named (s.to_slice chunk.pending_data_nodes)) pending)
          (GoMap.insert chunk.id tt ids) free clean)

  lookup-all_ids :
      (chunks : List (Chunk S)) (ids : GoMap.GoMap GoString (Unit {0})) (id : GoString)
      → lookup id (all_ids chunks ids) ≡ (if is_known chunks id then some tt else lookup id ids)
  lookup-all_ids [] ids id = refl
  lookup-all_ids (chunk ∷ chunks) ids id = ground (
    arith,
    lookup-all_ids chunks (GoMap.insert chunk.id tt ids) id,
    lookup-insert id chunk.id tt ids,
  )

  lookup-shared :
      (data_nodes pending : S) (id : GoString) (ids : GoMap.GoMap GoString (Unit {0}))
      → lookup id ids ≡ some tt
      → lookup id (map (λ (id, _). (id, shared_chunk data_nodes pending id)) ids)
        ≡ some (shared_chunk data_nodes pending id)
  unfolding GoMap.lookup
  lookup-shared data_nodes pending id [] there = absurd (ground (arith, there))
  lookup-shared data_nodes pending id ((other, u) ∷ ids) there = elim (Bool-cases (other == id)) [
    | inl same ↦
        let other≡id : other ≡ id = ground (arith, same) in
        rw (same, GoMap.lookup) (ap (λ x. some (shared_chunk data_nodes pending x)) other≡id)
    | inr differs ↦
        rw (differs, GoMap.lookup)
          (lookup-shared data_nodes pending id ids (rw (differs, GoMap.lookup) at there))
  ]

  -- RestoreChunks reads the lines that Chunk.String has written, up to the delimiter, without a
  -- panic. Every chunk that was written is there again, with the DataNodes and pending DataNodes of
  -- all chunks together as its own, and the empty string among them if some chunk had none. No
  -- identifier has a `$` or a space, and the delimiter no `$`.
  pub restore_chunks-shared :
      (text : SnapshotText) (chunks : List (Chunk S)) (left : List GoString)
      → contains text.snapshot_delimiter b'$' ≡ false
      → AllClean chunks
      → (m : ChunksMap S) × (restore_chunks text
            (map chunk_line chunks ++ text.snapshot_delimiter ∷ left)
          ≡ ok (m, left))
        × ((id : GoString)
            → is_known chunks id ≡ true
            → (chunk : Chunk S) × (lookup id m ≡ some chunk)
              × (chunk.id ≡ id)
              × ((x : GoString)
                  → (s.member chunk.data_nodes x ≡ mentioned (λ c. c.data_nodes) chunks x)
                    × (s.member chunk.pending_data_nodes x
                        ≡ mentioned (λ c. c.pending_data_nodes) chunks x)))
  unfolding restore_chunks
  restore_chunks-shared text chunks left free clean =
      let data_nodes = gathered (λ chunk. chunk.data_nodes) chunks s.new_set in
      let pending = gathered (λ chunk. chunk.pending_data_nodes) chunks s.new_set in
      (
        map (λ (id, _). (id, shared_chunk data_nodes pending id)) (all_ids chunks []),
        rw (restore_chunks, read_chunks-lines text chunks left s.new_set s.new_set [] free clean)
            refl,
        λ id known. (
          shared_chunk data_nodes pending id,
          lookup-shared data_nodes pending id (all_ids chunks [])
              (ground (arith, known, lookup-all_ids chunks [] id)),
          refl,
          λ x. (
            ground (
              arith,
              member-gathered (λ chunk. chunk.data_nodes) chunks s.new_set x,
              s.member-new_set x,
            ),
            ground (
              arith,
              member-gathered (λ chunk. chunk.pending_data_nodes) chunks s.new_set x,
              s.member-new_set x,
            ),
          ),
        ),
      )
