-- ===== src/Samples.antt =====
-- Concrete values for the parameters of External, at which the witnesses and tests run.
use tinydfs_master.Base.{
  ℕ, ◌+◌, ◌-◌, ◌*◌, ◌/◌, ◌≡◌, refl, true, false, Option, none, some, List, [], ◌∷◌, ◌++◌, nat_eq,
  nat_list_eq, ◌==◌, if◌then◌else◌, contains, length, take, drop, GoString, arith,
}
use tinydfs_master.External.{Common, IsLawful, concat, StringSet, StringQueue, NodeQueue}

instance abbrev pub sample_common : Common
sample_common = record {
  chunk_size = 67108864;
  dir_size = 0;
  is_file4_add_file = true;
  chunk_id_delimiter = b'_';
  alive = 0;
  waiting = 1;
  cold = 2;
  degrade2_waiting = 0;
  check_args = 0;
  get_data_nodes = 1;
  unlock_dic = 2;
  copy_send_type = 0;
  move_send_type = 1;
  delete_send_type = 2;
  wait_to_inform = 0;
  wait_to_send = 1;
  replica_num = 3;
  storable_threshold = 80;
  expand_threshold = 10;
  chunk_dead_chunk_copy_threshold = 32;
  combine_string = concat;
  ceil_quotient = λ a b. (a + b - 1) / b;
  ceil_percent = λ a b. (a * 100 + b - 1) / b;
  year_before = λ t. t - 31536000000000000;
}

pub sample_common-IsLawful : IsLawful sample_common
sample_common-IsLawful = record {
  combine_string-concat = λ ss. refl;
  chunk_size_pos = omega arith;
  ceil_quotient_exact = λ n h. refl;
  alive≢waiting = omega arith;
  alive≢cold = omega arith;
  copy≢move = omega arith;
  copy≢delete = omega arith;
  move≢delete = omega arith;
  inform≢send = omega arith;
  check_args≢get_data_nodes = omega arith;
  check_args≢unlock_dic = omega arith;
  get_data_nodes≢unlock_dic = omega arith;
}

-- A set as a list without repetition.
unfoldable pub without : List GoString → GoString → List GoString
without [] x = []
without (y ∷ s) x = let rest = without s x in if x == y then rest else y ∷ rest

pub contains-without :
    (s : List GoString) (x y : GoString)
    → contains (without s x) y ≡ (if x == y then false else contains s y)
unfolding without
contains-without [] x y = ground arith
contains-without (z ∷ s) x y = ground (arith, contains-without s x y)

abbrev pub include : List GoString → GoString → List GoString
include s x = if contains s x then s else x ∷ s

pub contains-include :
    (s : List GoString) (x y : GoString)
    → contains (include s x) y ≡ (if x == y then true else contains s y)
contains-include s x y = ground arith

instance abbrev pub sample_set : StringSet (List GoString)
sample_set = record {
  new_set = [];
  add = include;
  remove = without;
  member = contains;
  to_slice = λ s. s;
  cardinality = length;
  member-new_set = λ x. refl;
  member-add = contains-include;
  member-remove = contains-without;
  contains-to_slice = λ s x. refl;
  cardinality-length = λ s. refl;
}

instance abbrev pub sample_queue : StringQueue (List GoString)
sample_queue = record {
  new_queue = [];
  push = λ q x. q ++ x ∷ [];
  len = length;
  batch_top = λ q n. take n q;
  batch_pop = λ q n. drop n q;
  contents = λ q. q;
  contents-new_queue = refl;
  contents-push = λ q x. refl;
  len-contents = λ q. refl;
  batch_top-take = λ q n h. refl;
  contents-batch_pop = λ q n h. refl;
}

abbrev pub sample_node_queue : NodeQueue (List ℕ)
sample_node_queue = record {
  new_queue = [];
  push = λ q x. q ++ x ∷ [];
  pop = λ q. elim q as (λ _. Option (ℕ × List ℕ)) [ [] ↦ none | x ∷ xs ↦ some (x, xs) ];
  contents = λ q. q;
  contents-new_queue = refl;
  contents-push = λ q x. refl;
  pop-nil = λ q e. rw e refl;
  pop-cons = λ q x xs e. (xs, rw e refl, refl);
}
