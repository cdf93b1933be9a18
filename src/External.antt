-- ===== src/External.antt =====
-- What the program takes from other repositories: constants, configuration and helpers of
-- tinydfs-base, the sets of golang-set and the queue of tinydfs-base/util. They are parameters.
-- The laws say what the calls rely on.
use tinydfs_master.Base.{
  ℕ, ◌+◌, ◌-◌, ◌/◌, ◌^◌, ◌≤◌, ◌<◌, ◌≡◌, ◌≢◌, Bool, true, false, Option, none, some, List, [], ◌∷◌,
  ◌++◌, ◌==◌, nat_list_eq, if◌then◌else◌, contains, length, take, drop, GoString,
}

-- Packages common and util of tinydfs-base, with the values that viper reads from config.yaml.
pub record Common : Type 0 where
  pub chunk_size : ℕ
  pub dir_size : ℕ
  pub is_file4_add_file : Bool
  -- A single byte: chunk.go writes it as `_`.
  pub chunk_id_delimiter : ℕ
  -- The status of a DataNode.
  pub alive : ℕ
  pub waiting : ℕ
  pub cold : ℕ
  pub degrade2_waiting : ℕ
  -- The stages of an add or a get.
  pub check_args : ℕ
  pub get_data_nodes : ℕ
  pub unlock_dic : ℕ
  pub copy_send_type : ℕ
  pub move_send_type : ℕ
  pub delete_send_type : ℕ
  pub wait_to_inform : ℕ
  pub wait_to_send : ℕ
  pub replica_num : ℕ
  pub storable_threshold : ℕ
  pub expand_threshold : ℕ
  pub chunk_dead_chunk_copy_threshold : ℕ
  pub combine_string : List GoString → GoString
  -- int(math.Ceil(float64(a) / float64(b))) and int(math.Ceil(float64(a) / float64(b) * 100)).
  pub ceil_quotient : ℕ → ℕ → ℕ
  pub ceil_percent : ℕ → ℕ → ℕ
  -- `t.AddDate(-1, 0, 0)`, in nanoseconds.
  pub year_before : ℕ → ℕ

-- The concatenation of pieces, for the law of CombineString.
abbrev pub concat : List GoString → GoString
concat [] = []
concat (s ∷ ss) = s ++ concat ss

pub record IsLawful (c : Common) : Type 0 where
  pub combine_string-concat : (ss : List GoString) → c.combine_string ss ≡ concat ss
  pub chunk_size_pos : 0 < c.chunk_size
  -- Doubles hold integers below 2^53, and ChunkSize is a power of two.
  pub ceil_quotient_exact :
      (n : ℕ) → n < 2 ^ 53 → c.ceil_quotient n c.chunk_size ≡ (n + c.chunk_size - 1) / c.chunk_size
  pub alive≢waiting : c.alive ≢ c.waiting
  pub alive≢cold : c.alive ≢ c.cold
  pub copy≢move : c.copy_send_type ≢ c.move_send_type
  pub copy≢delete : c.copy_send_type ≢ c.delete_send_type
  pub move≢delete : c.move_send_type ≢ c.delete_send_type
  pub inform≢send : c.wait_to_inform ≢ c.wait_to_send
  pub check_args≢get_data_nodes : c.check_args ≢ c.get_data_nodes
  pub check_args≢unlock_dic : c.check_args ≢ c.unlock_dic
  pub get_data_nodes≢unlock_dic : c.get_data_nodes ≢ c.unlock_dic

-- mapset.Set of strings. A method that changes the set returns the new set.
pub record StringSet (S : Type 0) : Type 0 where
  pub new_set : S
  pub add : S → GoString → S
  pub remove : S → GoString → S
  pub member : S → GoString → Bool
  -- ToSlice and Iter, in an order that golang-set leaves open.
  pub to_slice : S → List GoString
  pub cardinality : S → ℕ
  pub member-new_set : (x : GoString) → member new_set x ≡ false
  pub member-add :
      (s : S) (x y : GoString) → member (add s x) y ≡ (if x == y then true else member s y)
  pub member-remove :
      (s : S) (x y : GoString) → member (remove s x) y ≡ (if x == y then false else member s y)
  pub contains-to_slice : (s : S) (x : GoString) → contains (to_slice s) x ≡ member s x
  pub cardinality-length : (s : S) → cardinality s ≡ length (to_slice s)

-- util.Queue of strings, through the list of what it holds, oldest first.
pub record StringQueue (Q : Type 0) : Type 0 where
  pub new_queue : Q
  pub push : Q → GoString → Q
  pub len : Q → ℕ
  pub batch_top : Q → ℕ → List GoString
  pub batch_pop : Q → ℕ → Q
  pub contents : Q → List GoString
  pub contents-new_queue : contents new_queue ≡ []
  pub contents-push : (q : Q) (x : GoString) → contents (push q x) ≡ contents q ++ x ∷ []
  pub len-contents : (q : Q) → len q ≡ length (contents q)
  pub batch_top-take :
      (q : Q) (n : ℕ) → n ≤ length (contents q) → batch_top q n ≡ take n (contents q)
  pub contents-batch_pop :
      (q : Q) (n : ℕ) → n ≤ length (contents q) → contents (batch_pop q n) ≡ drop n (contents q)

-- util.Queue of FileNodes, which the check of the file tree uses.
pub record NodeQueue (P : Type 0) : Type 0 where
  pub new_queue : P
  pub push : P → ℕ → P
  pub pop : P → Option (ℕ × P)
  pub contents : P → List ℕ
  pub contents-new_queue : contents new_queue ≡ []
  pub contents-push : (q : P) (x : ℕ) → contents (push q x) ≡ contents q ++ x ∷ []
  pub pop-nil : (q : P) → contents q ≡ [] → pop q ≡ none
  pub pop-cons :
      (q : P) (x : ℕ) (xs : List ℕ)
      → contents q ≡ x ∷ xs
      → (rest : P) × (pop q ≡ some (x, rest)) × (contents rest ≡ xs)
