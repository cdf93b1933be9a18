-- ===== src/Checks/Owner.antt =====
-- The owner of a chunk is read off its identifier: the identifiers that AddOperation.Apply makes,
-- and strings.Split in CheckChunksOperation.Apply, of internal/operation.go.
use tinydfs_master.Base.{
  ℕ, ◌+◌, map, ◌≡◌, refl, ap, ◌∙◌, not, false, List, [], ◌∷◌, ◌++◌, nat_eq, nat_list_eq, contains,
  GoString, arith,
}
use tinydfs_master.Base.Strings.{split, itoa}
use tinydfs_master.External.{Common, IsLawful, StringSet}
use tinydfs_master.State.{Chunk, DataNode}
use tinydfs_master.Operations.{new_chunks}
use tinydfs_master.Checks.{first_piece, file_node_id_of, is_rubbish}

first_piece-split :
    (c : ℕ) (id rest : GoString)
    → contains id c ≡ false
    → first_piece (split c (id ++ c ∷ rest)) ≡ id
unfolding split
first_piece-split c [] rest free = ground arith
first_piece-split c (x ∷ id) rest free = ground (arith, first_piece-split c id rest, free)

module _ ⦃c : Common⦄ (lawful : IsLawful c) where
  file_node_id_of-combine :
      (id : GoString) (i : ℕ)
      → contains id c.chunk_id_delimiter ≡ false
      → file_node_id_of (c.combine_string (id ∷ (c.chunk_id_delimiter ∷ []) ∷ itoa i ∷ [])) ≡ id
  unfolding file_node_id_of
  file_node_id_of-combine id i free =
      ap (λ x. first_piece (split c.chunk_id_delimiter x)) (lawful.combine_string-concat _)
      ∙ first_piece-split c.chunk_id_delimiter id (itoa i ++ []) free

  -- The clean-up takes the chunks that an add makes for rubbish exactly when the file's
  -- identifier, which has no delimiter, is unknown.
  pub is_rubbish-new_chunks :
      {S : Type 0}
      → ⦃s : StringSet S⦄ → (set : S) (id : GoString) (i : ℕ) (nodes : List (List (DataNode S)))
      → contains id c.chunk_id_delimiter ≡ false
      → map (λ (chunk : Chunk S). is_rubbish set chunk.id) (new_chunks id i nodes)
        ≡ map (λ _. not (s.member set id)) nodes
  unfolding new_chunks is_rubbish
  is_rubbish-new_chunks set id i [] free = refl
  is_rubbish-new_chunks {S} ⦃s⦄ set id i (dns ∷ nodes) free =
      let rest = map (λ (chunk : Chunk S). is_rubbish set chunk.id) (new_chunks id (i + 1) nodes) in
      ap (λ x. not (s.member set x) ∷ rest) (file_node_id_of-combine id i free)
      ∙ ap (λ xs. not (s.member set id) ∷ xs) (is_rubbish-new_chunks set id (i + 1) nodes free)
