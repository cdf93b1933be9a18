-- ===== src/Raft.antt =====
-- internal/fsm.go, MasterFSM.Apply as raft calls it, and package raft as the handlers call it.
use tinydfs_master.Base.{
  ℕ, ◌≡◌, ◌⊎◌, inl, inr, refl, subst, sym, ap, ◌∙◌, arith, Result-cases, ok-injective, GoString,
  Error, Result, ok, err, panic,
}
use tinydfs_master.External.{Common, StringSet, StringQueue}
use tinydfs_master.State.{Master}
use tinydfs_master.Operations.{Operation, Reply}
use tinydfs_master.Operations.Apply.{apply}
use tinydfs_master.Operations.Consistency.{IsAdmissible}

-- type ApplyResponse: one of the two fields is nil.
pub data ApplyResponse : Type 0 where
  response : Reply → ApplyResponse
  error : Error → ApplyResponse

-- raft.ApplyFuture: `Error()` with its text, or `Response()`.
pub data ApplyFuture : Type 0 where
  failed : GoString → ApplyFuture
  applied : ApplyResponse → ApplyFuture

module _ {S Q : Type 0} ⦃c : Common⦄ ⦃s : StringSet S⦄ ⦃q : StringQueue Q⦄ where
  -- MasterFSM.Apply, after decoding.
  unfoldable pub fsm_apply :
      Operation → ℕ → GoString → Master S Q → Result (Master S Q × ApplyResponse)
  unfolding apply
  fsm_apply op now id m = elim (apply op now id m) [
    | ok (m', r) ↦ ok (m', response r)
    | err e ↦ ok (m, error e)
    | panic ↦ panic
  ]

  -- A future without an error has the response of an application to the leader's metadata. After
  -- an error the operation has been applied or not; it may still be applied after the call has
  -- returned, which is a step of its own in Running.
  abbrev pub Proposed : Operation → Master S Q → Master S Q → ApplyFuture → Type 0
  Proposed op m m' (failed e) =
      (m' ≡ m)
      ⊎ ((now : ℕ) × (id : GoString) × (a : ApplyResponse) × (fsm_apply op now id m ≡ ok (m', a)))
  Proposed op m m' (applied a) = (now : ℕ) × (id : GoString) × (fsm_apply op now id m ≡ ok (m', a))

-- `Raft.Apply` of an encoded operation, and the wait for its future. A panic in Apply ends the
-- process.
pub record Raft (S Q : Type 0) ⦃c : Common⦄ ⦃s : StringSet S⦄ ⦃q : StringQueue Q⦄ : Type 0 where
  pub propose : Operation → Master S Q → Result (Master S Q × ApplyFuture)
  pub propose-Proposed :
      (op : Operation) (m m' : Master S Q) (f : ApplyFuture)
      → propose op m ≡ ok (m', f)
      → Proposed op m m' f

module _ {S Q : Type 0} ⦃c : Common⦄ ⦃s : StringSet S⦄ ⦃q : StringQueue Q⦄ where
  -- The property holds after the operation, if it is applied to this metadata without an error.
  abbrev pub After : Operation → Master S Q → (Master S Q → Type 0) → Type 0
  After op m P =
      (now : ℕ) (id : GoString) (m' : Master S Q) (r : Reply)
      → apply op now id m ≡ ok (m', r)
      → P m'

  -- Every admissible operation that is applied without an error keeps the property.
  abbrev pub Keeps : (Master S Q → Type 0) → Type 0
  Keeps P =
      (op : Operation) (now : ℕ) (id : GoString) (m m' : Master S Q) (r : Reply)
      → IsAdmissible op m
      → P m
      → apply op now id m ≡ ok (m', r)
      → P m'

  pub kept-After :
      {P : Master S Q → Type 0}
      → Keeps P
      → (op : Operation) (m : Master S Q) → IsAdmissible op m
      → P m
      → After op m P
  kept-After keeps op m adm held now id m' r e = keeps op now id m m' r adm held e

module _ {S Q : Type 0} ⦃c : Common⦄ ⦃s : StringSet S⦄ ⦃q : StringQueue Q⦄ {P : Master S Q → Type 0}
    (op : Operation) (m : Master S Q) (held : P m) (after : After op m P) where
  pub fsm_apply-keeps :
      (now : ℕ) (id : GoString) (m' : Master S Q) (a : ApplyResponse)
      → fsm_apply op now id m ≡ ok (m', a)
      → P m'
  unfolding fsm_apply
  fsm_apply-keeps now id m' a e = elim (Result-cases (apply op now id m)) [
    | inl ((m₁, r), done) ↦
        let applied_ok : fsm_apply op now id m ≡ ok (m₁, response r) = rw (done, fsm_apply) refl in
        subst P (ap (λ x. x.0) (ok-injective (sym applied_ok ∙ e))) (after now id m₁ r done)
    | inr (inl (x, refused)) ↦
        let kept : fsm_apply op now id m ≡ ok (m, error x) = rw (refused, fsm_apply) refl in
        subst P (ap (λ x. x.0) (ok-injective (sym kept ∙ e))) held
    | inr (inr panics) ↦
        let dead : fsm_apply op now id m ≡ panic = rw (panics, fsm_apply) refl in
        absurd (ground (arith, dead, e))
  ]

  -- Whatever becomes of a proposal, a property that holds before and after its operation holds.
  pub propose-keeps :
      (raft : Raft S Q) (m' : Master S Q) (f : ApplyFuture) → raft.propose op m ≡ ok (m', f) → P m'
  propose-keeps raft m' (failed x) e = elim (raft.propose-Proposed op m m' (failed x) e) [
    | inl same ↦ subst P (sym same) held
    | inr (now, id, a, done) ↦ fsm_apply-keeps now id m' a done
  ]
  propose-keeps raft m' (applied a) e =
      let (now, id, done) = raft.propose-Proposed op m m' (applied a) e in
      fsm_apply-keeps now id m' a done
