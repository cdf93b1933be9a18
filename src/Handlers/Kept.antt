-- ===== src/Handlers/Kept.antt =====
-- What the calls of internal/master_handler.go share, and Register, keep what the operations keep.
use tinydfs_master.Base.{
  ℕ, ◌≡◌, sym, ap, ◌∙◌, subst, Bool, true, false, some, some-injective, [], GoString, arith,
  Option-cases, Result-cases, inl, inr, Result, ok, ok-injective, after_bind,
}
use tinydfs_master.External.{Common, StringSet, StringQueue}
use tinydfs_master.State.{DataNode, Master}
use tinydfs_master.DataNodes.{get_data_node}
use tinydfs_master.DataNodes.Usage.{is_need2_expand}
use tinydfs_master.Operations.{ExpandOperation, Operation, Reply}
use tinydfs_master.Operations.Apply.{apply}
use tinydfs_master.Expand.{Search, pending_count, rounds, expand_operation, do_expand}
use tinydfs_master.Raft.{ApplyFuture, failed, applied, response, error, Raft, After, propose-keeps}
use tinydfs_master.Handlers.Rpc.{
  RpcNames, RpcError, Answer, refused, replied, Server, success_count_inc, after_future, ask,
}
use tinydfs_master.Handlers.Nodes.{
  RegisterArgs, RegisterReply, register_error, register_operation, registered_id, propose_register,
  finish_register, register, heartbeat_reply,
}
use tinydfs_master.Handlers.Replies.{
  done_reply, checked_args_reply, allocated_reply, located_reply, get_reply, list_reply, stat_reply,
}
use tinydfs_master.Handlers.Files.{apply_here}

module _ {S Q : Type 0} where
  -- The way on from a response leaves the metadata alone.
  abbrev pub KeepsMaster :
      {A : Type 0} → (Server S Q → Reply → Result (Server S Q × Answer A)) → Type 0
  KeepsMaster {A} go_on =
      (server : Server S Q) (r : Reply) (server' : Server S Q) (a : Answer A)
      → go_on server r ≡ ok (server', a)
      → server'.master ≡ server.master

  same_server :
      {A : Type 0} (server server' : Server S Q) (a a' : Answer A)
      → ◌≡◌ {A = Result (Server S Q × Answer A)} (ok (server, a)) (ok (server', a'))
      → server ≡ server'
  same_server server server' a a' e = ap (λ x. x.0) (ok-injective e)

  pub same_master :
      {A : Type 0} (server server' : Server S Q) (a a' : Answer A)
      → ◌≡◌ {A = Result (Server S Q × Answer A)} (ok (server, a)) (ok (server', a'))
      → server'.master ≡ server.master
  same_master server server' a a' e =
      sym (ap (λ (x : Server S Q). x.master) (same_server server server' a a' e))

  pub done_reply-keeps : (label : GoString) → KeepsMaster (done_reply {S = S} {Q = Q} label)
  unfolding done_reply success_count_inc
  done_reply-keeps label server r server' a e = same_master _ server' _ a e

  pub checked_args_reply-keeps : KeepsMaster (checked_args_reply {S = S} {Q = Q})
  unfolding checked_args_reply
  checked_args_reply-keeps server (Reply.checked_args id chunk_num) server' a e =
      same_master _ server' _ a e
  checked_args_reply-keeps server _ server' a e = absurd (ground (arith, e))

  pub allocated_reply-keeps : KeepsMaster (allocated_reply {S = S} {Q = Q})
  unfolding allocated_reply
  allocated_reply-keeps server (Reply.allocated placed) server' a e = same_master _ server' _ a e
  allocated_reply-keeps server _ server' a e = absurd (ground (arith, e))

  pub located_reply-keeps : KeepsMaster (located_reply {S = S} {Q = Q})
  unfolding located_reply
  located_reply-keeps server (Reply.located ids addrs index) server' a e =
      same_master _ server' _ a e
  located_reply-keeps server _ server' a e = absurd (ground (arith, e))

  pub get_reply-keeps :
      (operation_id : GoString) → KeepsMaster (get_reply {S = S} {Q = Q} operation_id)
  unfolding get_reply
  get_reply-keeps operation_id server (Reply.file_node p) server' a e = same_master _ server' _ a e
  get_reply-keeps operation_id server _ server' a e = absurd (ground (arith, e))

  pub list_reply-keeps : (names : RpcNames) → KeepsMaster (list_reply {S = S} {Q = Q} names)
  unfolding list_reply success_count_inc
  list_reply-keeps names server (Reply.files files) server' a e = same_master _ server' _ a e
  list_reply-keeps names server _ server' a e = absurd (ground (arith, e))

  pub stat_reply-keeps : (names : RpcNames) → KeepsMaster (stat_reply {S = S} {Q = Q} names)
  unfolding stat_reply success_count_inc
  stat_reply-keeps names server (Reply.file_node p) server' a e = same_master _ server' _ a e
  stat_reply-keeps names server _ server' a e = absurd (ground (arith, e))

module _ {S Q : Type 0} ⦃c : Common⦄ ⦃s : StringSet S⦄ ⦃q : StringQueue Q⦄ where
  registered_id-keeps : KeepsMaster (registered_id {S = S} {Q = Q})
  unfolding registered_id
  registered_id-keeps server (Reply.data_node_id id) server' a e = same_master _ server' _ a e
  registered_id-keeps server _ server' a e = absurd (ground (arith, e))

  pub heartbeat_reply-keeps : KeepsMaster (heartbeat_reply {S = S} {Q = Q})
  unfolding heartbeat_reply
  heartbeat_reply-keeps server (Reply.send_infos infos) server' a e = same_master _ server' _ a e
  heartbeat_reply-keeps server _ server' a e = absurd (ground (arith, e))

  after_future-keeps :
      {A : Type 0} (on_failure on_error : GoString → RpcError)
      (go_on : Server S Q → Reply → Result (Server S Q × Answer A)) (server : Server S Q)
      (future : ApplyFuture) (server' : Server S Q) (a : Answer A)
      → KeepsMaster go_on
      → after_future on_failure on_error go_on server future ≡ ok (server', a)
      → server'.master ≡ server.master
  unfolding after_future
  after_future-keeps on_failure on_error go_on server (failed x) server' a keeps e =
      same_master server server' _ a e
  after_future-keeps on_failure on_error go_on server (applied (error x)) server' a keeps e =
      same_master server server' _ a e
  after_future-keeps on_failure on_error go_on server (applied (response r)) server' a keeps e =
      keeps server r server' a e

module _ {S Q : Type 0} ⦃c : Common⦄ ⦃s : StringSet S⦄ ⦃q : StringQueue Q⦄ where
  -- An expansion keeps the property.
  abbrev pub Expands : (Master S Q → Type 0) → Type 0
  Expands P = (o : ExpandOperation) (m : Master S Q) → P m → After (Operation.expand o) m P

module _ {S Q : Type 0} ⦃c : Common⦄ ⦃s : StringSet S⦄ ⦃q : StringQueue Q⦄
    {P : Master S Q → Type 0} where
  pub ask-keeps :
      {A : Type 0} (raft : Raft S Q) (on_failure on_error : GoString → RpcError) (op : Operation)
      (server : Server S Q) (go_on : Server S Q → Reply → Result (Server S Q × Answer A))
      (server' : Server S Q) (a : Answer A)
      → KeepsMaster go_on
      → P server.master
      → After op server.master P
      → ask raft on_failure on_error op server go_on ≡ ok (server', a)
      → P server'.master
  unfolding ask
  ask-keeps raft on_failure on_error op server go_on server' a same agree after e =
      after_bind _ (raft.propose op server.master) _ e λ (m, future) proposed e.
        subst P
          (sym (
            after_future-keeps on_failure on_error go_on (record server { master = m }) future
              server' a same e))
          (propose-keeps op server.master agree after raft m future proposed)

  pub apply_here-keeps :
      {A : Type 0} (on_error : GoString → RpcError) (op : Operation) (now : ℕ) (id : GoString)
      (server : Server S Q) (go_on : Server S Q → Reply → Result (Server S Q × Answer A))
      (server' : Server S Q) (a : Answer A)
      → KeepsMaster go_on
      → P server.master
      → After op server.master P
      → apply_here on_error op now id server go_on ≡ ok (server', a)
      → P server'.master
  unfolding apply_here
  apply_here-keeps on_error op now id server go_on server' a same agree after e =
      elim (Result-cases (apply op now id server.master)) [
        | inl ((m, r), done) ↦
            subst P
              (sym (same (record server { master = m }) r server' a (rw (done, apply_here) at e)))
              (after now id m r done)
        | inr (inl (x, fails)) ↦
            subst P (sym (same_master server server' _ a (rw (fails, apply_here) at e))) agree
        | inr (inr panics) ↦ absurd (cc (rw (panics, apply_here) at e))
      ]

  do_expand-keeps :
      (expands : Expands P) (raft : Raft S Q) (fuel : ℕ) (node : DataNode S) (m m' : Master S Q)
      (n : ℕ)
      → do_expand raft fuel node m ≡ some (ok (m', n))
      → P m
      → P m'
  unfolding do_expand
  do_expand-keeps expands raft fuel node m m' n e agree =
      elim (Result-cases (pending_count node m.data_node_map)) [
        | inl (count, counted) ↦
            let start : Search S = record { pending_chunks = s.new_set; pending_map = [] } in
            elim (Option-cases (rounds node.chunks count fuel m.data_node_map start)) [
              | inl out ↦ absurd (cc (rw (counted, out, do_expand) at e))
              | inr (search, found) ↦
                  after_bind _ (raft.propose (Operation.expand (expand_operation node.id search)) m)
                    _ (some-injective _ _ (rw (counted, found, do_expand) at e))
                    λ (m₁, future) proposed e. subst P (ap (λ x. x.0) (ok-injective e)) (
                      propose-keeps (Operation.expand (expand_operation node.id search)) m agree
                        (expands (expand_operation node.id search) m agree) raft m₁ future proposed)
            ]
        | inr (inl (x, fails)) ↦ absurd (cc (rw (fails, do_expand) at e))
        | inr (inr panics) ↦ absurd (cc (rw (panics, do_expand) at e))
      ]

  finish_register-keeps :
      (expands : Expands P) (raft : Raft S Q) (fuel : ℕ) (id : GoString) (need : Bool)
      (args : RegisterArgs) (asked : Server S Q × Answer GoString) (server' : Server S Q)
      (a : Answer RegisterReply)
      → finish_register raft fuel id need args asked ≡ some (ok (server', a))
      → P asked.0.master
      → P server'.master
  unfolding finish_register
  finish_register-keeps expands raft fuel id need args (server, refused x) server' a e agree =
      subst P (sym (same_master server server' _ a (some-injective _ _ e))) agree
  finish_register-keeps expands raft fuel id false args (server, replied x) server' a e agree =
      subst P (sym (same_master _ server' _ a (some-injective _ _ e))) agree
  finish_register-keeps expands raft fuel id true args (server, replied x) server' a e agree =
      elim (Option-cases (get_data_node id server.master.data_node_map)) [
        | inl absent ↦ absurd (cc (rw (absent, finish_register) at e))
        | inr (node, there) ↦ elim (Option-cases (do_expand raft fuel node server.master)) [
          | inl out ↦ absurd (cc (rw (there, out, finish_register) at e))
          | inr (r, expanded) ↦
              after_bind _ r _ (some-injective _ _ (rw (there, expanded, finish_register) at e))
                λ (m, n) got e. subst P (sym (same_master _ server' _ a e)) (
                  do_expand-keeps expands raft fuel node server.master m n (expanded ∙ ap some got)
                    agree)
        ]
      ]

  pub register-keeps :
      (expands : Expands P) (raft : Raft S Q) (names : RpcNames) (fuel : ℕ) (peer id : GoString)
      (args : RegisterArgs) (server server' : Server S Q) (a : Answer RegisterReply)
      → P server.master
      → ((need : Bool)
          → After (Operation.register (register_operation id peer need args)) server.master P)
      → register raft names fuel peer id args server ≡ some (ok (server', a))
      → P server'.master
  unfolding register propose_register register_operation
  register-keeps expands raft names fuel peer id args server server' a agree after e =
      elim (Result-cases
        (is_need2_expand args.used_capacity args.full_capacity server.master.data_node_map)) [
          | inr (inl (x, fails)) ↦ absurd (cc (rw (fails, register) at e))
          | inr (inr panics) ↦ absurd (cc (rw (panics, register) at e))
          | inl (need, asked) ↦
              elim (Result-cases (propose_register raft names peer id need args server)) [
                | inr (inl (x, fails)) ↦ absurd (cc (rw (asked, fails, register) at e))
                | inr (inr panics) ↦ absurd (cc (rw (asked, panics, register) at e))
                | inl ((server₁, a₁), done) ↦
                    finish_register-keeps expands raft fuel id need args (server₁, a₁) server' a
                      (rw (asked, done, register) at e)
                      (ask-keeps raft (register_error names) (register_error names)
                        (Operation.register (register_operation id peer need args)) server
                        registered_id server₁ a₁ registered_id-keeps agree (after need) done)
              ]
        ]
