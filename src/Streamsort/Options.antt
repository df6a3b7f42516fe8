-- ===== src/Streamsort/Options.antt =====
-- internal/streamsort/streamsort.go: opening a store, and what `Close` gives back. The host's
-- directories and caches are a parameter.
use state_actor.Prelude.{ℕ, ◌*◌, ◌^◌, ◌&&◌, Option, none, some, List, ltb, if◌then◌else◌}
use state_actor.Streamsort.{Pebble, Store, new_store}

-- `os.MkdirTemp`, `pebble.NewCache`, `pebble.Open` with the memtable's size, `cache.Unref` and
-- `os.RemoveAll`, on the state `W` of the host.
pub record Host (C D W : Type 0) : Type 0 where
  pub mkdir_temp : W → List ℕ → Option (List ℕ) × W
  pub new_cache : W → ℕ → C × W
  pub open_db : W → List ℕ → C → ℕ → Option D × W
  pub unref : W → C → W
  pub remove_all : W → List ℕ → W

-- The int64 fields, by their 64 bits.
pub record Options : Type 0 where
  pub block_cache_bytes : ℕ
  pub mem_table_bytes : ℕ

-- 256 << 20 and 8 << 20
abbrev pub mem_table_size : ℕ
mem_table_size = 256 * 2 ^ 20

abbrev pub default_block_cache_bytes : ℕ
default_block_cache_bytes = 8 * 2 ^ 20

-- `if x > 0` on an int64, with a default.
unfoldable pub or_default : ℕ → ℕ → ℕ
or_default x default = if ltb 0 x && ltb x (2 ^ 63) then x else default

pub data OpenError : Type 0 where
  mkdir_failed open_failed : OpenError

-- A store with the directory and the cache it owns.
pub record Owned (C B D : Type 0) : Type 0 where
  pub dir : List ℕ
  pub cache : C
  pub store : Store B D

pub data Opened (C B D : Type 0) : Type 0 where
  opened : Owned C B D → Opened C B D
  not_opened : OpenError → Opened C B D

module _ {B C D I W : Type 0} (pebble : Pebble B D I) (host : Host C D W) where
  -- The rest of the constructor, with the directory made and the cache allocated.
  abbrev pub open_in : List ℕ → C → Option D × W → Opened C B D × W
  open_in dir cache (none, w) = (not_opened open_failed, host.remove_all (host.unref w cache) dir)
  open_in dir cache (some d, w) =
      (opened (record { dir = dir; cache = cache; store = new_store pebble d }), w)

  abbrev pub with_dir : Options → Option (List ℕ) × W → Opened C B D × W
  with_dir opts (none, w) = (not_opened mkdir_failed, w)
  with_dir opts (some dir, w) =
      let (cache, w') =
        host.new_cache w (or_default opts.block_cache_bytes default_block_cache_bytes) in
      open_in dir cache (host.open_db w' dir cache (or_default opts.mem_table_bytes mem_table_size))

  unfoldable pub new_with_options : W → List ℕ → Options → Opened C B D × W
  new_with_options w work_dir opts = with_dir opts (host.mkdir_temp w work_dir)

  unfoldable pub new_default : W → List ℕ → Opened C B D × W
  unfolding new_with_options
  new_default w work_dir =
      new_with_options w work_dir (record { block_cache_bytes = 0; mem_table_bytes = 0 })

  -- The end of `Close`.
  unfoldable pub release : W → Owned C B D → W
  release w o = host.remove_all (host.unref w o.cache) o.dir
