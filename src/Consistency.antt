-- ===== src/Consistency.antt =====
-- How the two views of where chunks are stored agree: the sets `dataNodes` of internal/chunk.go
-- and the sets `Chunks` of internal/datanode.go.
pub mod OfChunks
pub mod OfNodes
pub mod Heartbeat
pub mod Cleanup
pub mod Plans
pub mod Finish
pub mod Forget
use tinydfs_master.Base.{
  ◌≡◌, refl, Bool, true, false, not, Option, none, some, GoString, nat_list_eq,
}
use tinydfs_master.Base.GoMap
use tinydfs_master.External.{StringSet}
use tinydfs_master.State.{Chunk, DataNode, Master}
use tinydfs_master.Chunks.{ChunksMap}
use tinydfs_master.DataNodes.{DataNodeMap}

module _ {S : Type 0} ⦃s : StringSet S⦄ where
  -- The chunk exists and counts the DataNode among its replicas.
  abbrev pub counts_in : Option (Chunk S) → GoString → Bool
  counts_in none id = false
  counts_in (some chunk) id = s.member chunk.data_nodes id

  abbrev pub counts : ChunksMap S → GoString → GoString → Bool
  counts m chunk_id id = counts_in (GoMap.lookup chunk_id m) id

  -- The DataNode is connected and does not store the chunk.
  abbrev pub lacks_in : Option (DataNode S) → GoString → Bool
  lacks_in none chunk_id = false
  lacks_in (some node) chunk_id = not (s.member node.chunks chunk_id)

  abbrev pub lacks : DataNodeMap S → GoString → GoString → Bool
  lacks m id chunk_id = lacks_in (GoMap.lookup id m) chunk_id

  -- No chunk counts a connected DataNode that does not store it.
  abbrev pub AreConsistent : ChunksMap S → DataNodeMap S → Type 0
  AreConsistent cm dm =
      (chunk_id id : GoString) → counts cm chunk_id id ≡ true → lacks dm id chunk_id ≡ false

  abbrev pub IsConsistent : {Q : Type 0} → Master S Q → Type 0
  IsConsistent m = AreConsistent m.chunks_map m.data_node_map

  -- Counting less and lacking less keeps consistency.
  pub AreConsistent-mono :
      (cm cm' : ChunksMap S) (dm dm' : DataNodeMap S)
      → AreConsistent cm dm
      → ((chunk_id id : GoString) → counts cm' chunk_id id ≡ true → counts cm chunk_id id ≡ true)
      → ((id chunk_id : GoString) → lacks dm id chunk_id ≡ false → lacks dm' id chunk_id ≡ false)
      → AreConsistent cm' dm'
  AreConsistent-mono cm cm' dm dm' agree less more k n e = more n k (agree k n (less k n e))
