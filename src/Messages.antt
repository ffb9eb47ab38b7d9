-- ===== src/Messages.antt =====
-- src/messages.rs: what clients and servers send to one another. The types of the crate `common` are
-- the fields of `Common`; the numbers of the messages are only handed on.
use Prim.Native.String.{String}
use brilliance_network.Prelude.{ℕ, Bool, Option, List}
use brilliance_network.Entities.{AnimationState, EntityNetworkComponent}

-- `BTreeMap` and `HashMap` are lists of entries.
pub record Common : Type 1 where
  pub Vector3 : Type 0
  pub Rotation : Type 0
  pub ChunkPosition : Type 0
  pub ChunkData : Type 0
  pub BlockPosition : Type 0
  pub BlockDataInfo : Type 0
  pub BlockType : Type 0
  pub BlockIndexType : Type 0
  pub InventoryType : Type 0
  pub ClientInventory : Type 0
  pub ClientItem : Type 0
  pub F32 : Type 0
  pub F64 : Type 0
  pub I32 : Type 0

pub data InventoryAction (c : Common) : Type 0 where
  move :
      (from_inventory : c.InventoryType) (from_slot : ℕ) (to_inventory : c.InventoryType)
      (to_slot amount : ℕ)
      → InventoryAction c
  swap :
      (a_inventory : c.InventoryType) (a_slot : ℕ) (b_inventory : c.InventoryType) (b_slot : ℕ)
      → InventoryAction c
  split :
      (from_inventory : c.InventoryType) (from_slot : ℕ) (to_inventory : c.InventoryType)
      (to_slot amount : ℕ)
      → InventoryAction c
  drop : (inventory : c.InventoryType) (slot amount : ℕ) → InventoryAction c
  close : (inventory : c.InventoryType) → InventoryAction c

pub data ClientMessages (c : Common) : Type 0 where
  connection_info : (login version architecture rendering_device : String) → ClientMessages c
  console_input : (command : String) → ClientMessages c
  player_move :
      (position : c.Vector3) (rotation : c.Rotation) (animation_state : AnimationState)
      → ClientMessages c
  chunk_recieved : (chunk_positions : List c.ChunkPosition) → ClientMessages c
  client_script_event : (script_slug slug json : String) → ClientMessages c
  resources_has_cache : (exists : Bool) → ClientMessages c
  resources_loaded : (last_index : ℕ) → ClientMessages c
  settings_loaded : ClientMessages c
  inventory_action : InventoryAction c → ClientMessages c

pub record ResurceScheme : Type 0 where
  pub slug : String
  pub scripts : List (String × String)
  pub media : List (String × String)

pub record InventorySlotChange (c : Common) : Type 0 where
  pub slot : ℕ
  pub item : Option c.ClientItem

pub data InventoryStream (c : Common) : Type 0 where
  start_stream :
      (inventory_type : c.InventoryType) (inventory : c.ClientInventory) → InventoryStream c
  stop_stream : (inventory_type : c.InventoryType) → InventoryStream c
  update_slots :
      (inventory_type : c.InventoryType) (changes : List (InventorySlotChange c))
      → InventoryStream c

pub data ServerMessages (c : Common) : Type 0 where
  allow_connection : ServerMessages c
  console_output : (message : String) → ServerMessages c
  disconnect : (message : Option String) → ServerMessages c
  resources_scheme : (list : List ResurceScheme) (archive_hash : ℕ) → ServerMessages c
  resources_part : (index total : ℕ) (data_bytes : List ℕ) → ServerMessages c
  settings :
      (block_types : List c.BlockType) (block_id_map : List (c.BlockIndexType × String))
      (chunks_distance : ℕ)
      → ServerMessages c
  spawn_world : (world_slug : String) → ServerMessages c
  update_player_component : (component : EntityNetworkComponent c.F32 c.I32) → ServerMessages c
  player_spawn :
      (world_slug : String) (position : c.Vector3) (rotation : c.Rotation)
      (components : List (EntityNetworkComponent c.F32 c.I32))
      → ServerMessages c
  chunk_section_info :
      (world_slug : String) (chunk_position : c.ChunkPosition) (sections : c.ChunkData)
      → ServerMessages c
  chunk_section_info_encoded :
      (world_slug : String) (chunk_position : c.ChunkPosition) (encoded : List ℕ) → ServerMessages c
  unload_chunks : (world_slug : String) (chunks : List c.ChunkPosition) → ServerMessages c
  start_streaming_entity :
      (world_slug : String) (id : ℕ) (position : c.Vector3) (rotation : c.Rotation)
      (components : List (EntityNetworkComponent c.F32 c.I32))
      → ServerMessages c
  update_entity_component :
      (world_slug : String) (id : ℕ) (component : EntityNetworkComponent c.F32 c.I32)
      → ServerMessages c
  stop_streaming_entities : (world_slug : String) (ids : List ℕ) → ServerMessages c
  entity_move :
      (world_slug : String) (id : ℕ) (position : c.Vector3) (rotation : c.Rotation)
      (animation_state : AnimationState) (timestamp : c.F64)
      → ServerMessages c
  edit_block :
      (world_slug : String) (position : c.BlockPosition) (new_block_info : Option c.BlockDataInfo)
      → ServerMessages c
  server_status : (tps : c.F32) → ServerMessages c
  inventory_stream : InventoryStream c → ServerMessages c

pub data NetworkMessageType : Type 0 where
  reliable_ordered : NetworkMessageType
  reliable_unordered : NetworkMessageType
  unreliable : NetworkMessageType
  world_info : NetworkMessageType
