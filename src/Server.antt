-- ===== src/Server.antt =====
-- The assembly of the server, `build_services` of backend/app/deps.py, and its start, in the lifespan
-- of backend/app/main.py. What the services share is one object each; the file store's tree is what
-- the data root holds.
use ephemeral_rooms.Prelude.{ℕ, Option, none, some, [], if◌then◌else◌, ltb, arith}
use ephemeral_rooms.Config.{Settings}
use ephemeral_rooms.Dict.{get}
use ephemeral_rooms.Storage.FileStore.{FileTree, sweep_data_root}
use ephemeral_rooms.Storage.Budget.{Budget}
use ephemeral_rooms.Storage.Memory.{Guard, new_guard}
use ephemeral_rooms.Rooms.Manager.{Manager}
use ephemeral_rooms.Rooms.Manager.Closing.{IsValid}
use ephemeral_rooms.Rooms.Manager.Steps.{Serves}
use ephemeral_rooms.Rooms.Manager.Lifecycle.{Serves-IsServing}
use ephemeral_rooms.Files.Uploads.{Service}

-- CACHE_TTL_SECONDS, in milliseconds.
abbrev pub cache_ttl : ℕ
cache_ttl = 1000

unfoldable pub new_budget : ℕ → Budget
new_budget budget_bytes = record {
  budget = budget_bytes;
  ttl = cache_ttl;
  cached_bytes = 0;
  cached_at = none;
}

-- The upload service with what it shares, the memory guard, the budget on the disk, if there is one,
-- and the times of the background tasks.
pub record Services (D W : Type 0) : Type 0 where
  pub uploads : Service D W
  pub memory : Guard
  pub disk : Option Budget
  pub stale_ms : ℕ
  pub reaper_interval_ms : ℕ

module _ {D W : Type 0} where
  unfoldable pub build_services : Settings → FileTree → Services D W
  unfolding new_budget
  build_services cfg data_root = record {
    uploads = record {
      manager = record { rooms = []; instances = []; store = data_root; closing_tasks = [] };
      ledger = record { headroom = cfg.disk_headroom_bytes; reservations = [] };
      index = [];
      uploads = [];
    };
    memory = new_guard cfg.memory_headroom_bytes cfg.memory_poll_interval_ms;
    disk =
        if ltb 0 cfg.max_total_storage_bytes
        then some (new_budget cfg.max_total_storage_bytes)
        else none;
    stale_ms = cfg.upload_stale_ms;
    reaper_interval_ms = cfg.reaper_interval_ms;
  }

  -- What the lifespan does before the first request.
  unfoldable pub start_up : Services D W → Services D W
  unfolding sweep_data_root
  start_up s =
      let manager' = record s.uploads.manager { store = sweep_data_root s.uploads.manager.store } in
      record s { uploads = record s.uploads { manager = manager' } }

  -- From a server that has just started, whatever its data root held, and however creations,
  -- visits, joins, drops, departures, timers, forced closings and steps of the cleanup tasks follow
  -- one another, the manager is valid: every code leads to a live, joinable room that bears it,
  -- under its own id, and the rooms are within the cap. The id of a new room is taken to be that of
  -- no object, and a cleanup to keep the code and the id of its room.
  pub start_up-IsValid :
      (cfg : Settings) (data_root : FileTree) (m : Manager D W)
      → Serves cfg (start_up (build_services cfg data_root)).uploads.manager m
      → IsValid cfg m
  unfolding build_services start_up get
  start_up-IsValid cfg data_root m reach =
      let started =
        Serves-IsServing cfg (start_up (build_services cfg data_root)).uploads.manager m
          (
            record { mapped = λ code i e. absurd (ground arith); bounded = omega arith },
            record {
              keyed = λ i r e. absurd (ground arith);
              apart = λ i closing code e. ground arith;
              known = λ i closing e. ground arith;
            },
          )
          reach in
      started.0
