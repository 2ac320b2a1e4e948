-- ===== src/Tests/Stores.antt =====
-- Examples of the memory guard, the storage feed and the document registry.
use ephemeral_rooms.Prelude.{
  ℕ, ◌≡◌, ◌⊎◌, inl, refl, Bool, true, none, some, List, [], ◌∷◌, codes, keep, same, any, ◌==◌, ◌↔◌,
  Text, ◌≢◌,
}
use ephemeral_rooms.Prelude.Int.{ℤ, pos}
use ephemeral_rooms.Dict.{values}
use ephemeral_rooms.Collab.Registry.{new_registry}
use ephemeral_rooms.Collab.Registry.Listing.{Op, creates, renames, deletes, run_listing}
use ephemeral_rooms.Collab.Registry.Listing.Refinement.{listing, apply_ops, listing-apply_ops}
use ephemeral_rooms.Storage.Memory.{
  new_guard, bytes_available, available_for_new_text, under_pressure,
}
use ephemeral_rooms.Storage.Memory.Probes.{unreadable, holds, SystemFiles, probe}
use ephemeral_rooms.Storage.Memory.Pressure.{Judged, under_pressure-probe}
use ephemeral_rooms.Rooms.Instance.State.{Room, connected_users}
use ephemeral_rooms.Rooms.Manager.{Manager}
use ephemeral_rooms.Files.Routes.{figures, storage}
use ephemeral_rooms.Files.StorageFeed.{rooms_in, has_company, sockets_of, broadcast_once}
use ephemeral_rooms.Files.StorageFeed.Laws.{IsServed, IsServedOn, broadcast_once-storage}
use ephemeral_rooms.Ws.Events
use ephemeral_rooms.Tests.{an_instance}
use ephemeral_rooms.Tests.Rooms.{with_alice}
use ephemeral_rooms.Tests.Files.{receiving}

-- A container with a limit of 100 bytes, of which 95 are used and 3 can be reclaimed.
abbrev container : SystemFiles
container = record {
  memory_max = holds (codes "100\n");
  memory_current = holds (codes "95\n");
  memory_stat = holds (codes "anon 1\ninactive_file 3\n");
  limit_in_bytes = unreadable;
  usage_in_bytes = unreadable;
  v1_memory_stat = unreadable;
  proc_meminfo = holds (codes "MemAvailable: 7 kB\n");
}

under_pressure-probe_example :
    Judged 10
      (bytes_available 5 (probe container none) (new_guard 10 2)).1
      (available_for_new_text 5 (probe container none) (new_guard 10 2)).1
      (under_pressure 5 (probe container none) (new_guard 10 2)).1
unfolding new_guard
under_pressure-probe_example = under_pressure-probe 5 container none (new_guard 10 2) (inl refl)

abbrev a_manager : Manager (Unit {0}) (Unit {0})
a_manager = record (receiving 3).manager { instances = (an_instance, with_alice) ∷ [] }

abbrev everybody : ℕ → Bool
everybody conn = true

broadcast_once-storage_example :
    let o =
      broadcast_once everybody 40 5 (pos 30) (receiving 3).ledger a_manager (new_guard 10 2) in
    (((i : Text) (r : Room (Unit {0}) (Unit {0})) → IsServed a_manager i r → connected_users r ≡ [])
      × (o ≡ (new_guard 10 2, none, [], 0)))
    ⊎ (((i : Text) × (r : Room (Unit {0}) (Unit {0})) × IsServed a_manager i r
          × (connected_users r ≢ []))
        × ((disk : ℕ) × (memory : ℤ) × (storage 40 5 (pos 30) (receiving 3).ledger (new_guard 10 2)
              ≡ (o.0, figures disk memory))
            × (o.1 ≡ some (Events.storage disk memory))
            × (o.2
                ≡ sockets_of everybody
                    (keep has_company (rooms_in (values a_manager.rooms) a_manager.instances)))
            × ((conn : ℕ)
                → (any (λ c. c == conn) o.2 ≡ true)
                  ↔ ((everybody conn ≡ true) × IsServedOn a_manager conn))
            × (o.3 ≡ disk)))
broadcast_once-storage_example =
    broadcast_once-storage everybody 40 5 (pos 30) (receiving 3).ledger a_manager (new_guard 10 2)

-- Two documents under the ids 1 and 2; the first is renamed, the second deleted.
abbrev some_ops : List (Op (Unit {0}))
some_ops =
    creates tt (1 ∷ []) (codes "a") 5
    ∷ creates tt (2 ∷ []) (codes "b") 6
    ∷ renames (1 ∷ []) (codes "c")
    ∷ deletes (2 ∷ [])
    ∷ []

listing-apply_ops_example : listing (apply_ops some_ops new_registry) ≡ run_listing some_ops []
unfolding same
listing-apply_ops_example = listing-apply_ops some_ops (refl, (refl, (tt, (tt, tt))))

listing_after : run_listing some_ops [] ≡ (1 ∷ [], codes "c") ∷ []
unfolding same
listing_after = refl
