-- ===== src/Tests/Connections.antt =====
-- The theorems on GetOrCreateWireguardConnection, at pairs of nodes.
use wireguard_babeld_igp.Base.{◌≡◌, ◌+◌, ℕ, zero, suc, List, [], ◌∷◌, refl, some, arith, none}
use wireguard_babeld_igp.Base.Int.{ℤ, ℤ_discrete, pos, int_key}
use wireguard_babeld_igp.Data.Map.{pairs, get, get-empty, put}
use wireguard_babeld_igp.Data.Map.Range.{len, first}
use wireguard_babeld_igp.Errors.{ok}
use wireguard_babeld_igp.Types.{WireguardConnection, zero_connection}
use wireguard_babeld_igp.Store.Memory.{MemoryStore, new_memory_store}
use wireguard_babeld_igp.Store.Memory.Connections.{
  joins, sorted_pair, new_connection, get_or_create, new_port, by_pair_or_create, create_connection,
  max_port,
}
use wireguard_babeld_igp.Store.Memory.Connections.Pairs.{AreOrders, Missing}
use wireguard_babeld_igp.Store.Memory.Connections.Repeats.{new-IsDense, second_call_repeats}
use wireguard_babeld_igp.Store.Memory.Connections.Steps.{Call, Calls, starting, ended, run}
use wireguard_babeld_igp.Store.Memory.Connections.Answers.{run-Has}
use wireguard_babeld_igp.Store.Memory.Connections.Races.{both, calls_race}
use wireguard_babeld_igp.Store.Memory.Connections.Ports.{
  Request, AllOrders, call_all, call_all_share,
}
use wireguard_babeld_igp.Tests.Fixtures.{orders, orders-AreOrders}

abbrev wanted : ℤ → ℤ → WireguardConnection
wanted node peer = record zero_connection { node_id = node; peer_id = peer }

none_stored : (c : WireguardConnection) → Missing (joins (sorted_pair c)) new_memory_store
none_stored c k d h = cc (get-empty {V = WireguardConnection} k)

second_call_repeats_example :
    let (r, s') =
      get_or_create orders (some (wanted (pos 2) (pos 1))) (pos 5000) new_memory_store in
    let (r', s'') = get_or_create orders (some (wanted (pos 2) (pos 1))) (pos 5000) s' in
    len s''.connections ≡ len new_memory_store.connections + 2
second_call_repeats_example =
    second_call_repeats orders-AreOrders orders-AreOrders new_memory_store (wanted (pos 2) (pos 1))
      (wanted (pos 2) (pos 1)) (pos 5000) (pos 5000) refl refl refl
      (none_stored (wanted (pos 2) (pos 1))) (omega arith) new-IsDense

abbrev requests : List Request
requests =
    (orders, some (wanted (pos 1) (pos 2)))
    ∷ (orders, some (wanted (pos 1) (pos 3)))
    ∷ (orders, none)
    ∷ []

abbrev second_link : WireguardConnection
second_link = record zero_connection { node_id = pos 1; peer_id = pos 3; port = pos 5000 }

second_stored :
    get (call_all (pos 5000) requests new_memory_store).connections (pos 1) ≡ some second_link
unfolding call_all get_or_create by_pair_or_create create_connection new_port max_port get put
    ℤ_discrete first pairs len
second_stored = refl

requests-AllOrders : AllOrders requests
unfolding AllOrders
requests-AllOrders = (orders-AreOrders, (orders-AreOrders, (orders-AreOrders, tt)))

call_all_share_example : second_link.port ≡ pos 5000
call_all_share_example =
    call_all_share (pos 5000) requests requests-AllOrders (pos 1) second_link second_stored

abbrev first_wants : Call
first_wants = record { orders = orders; wanted = wanted (pos 1) (pos 2); base = pos 5000 }

abbrev second_wants : Call
second_wants = record { orders = orders; wanted = wanted (pos 2) (pos 1); base = pos 5000 }

abbrev turns : List ℕ
turns = 0 ∷ 1 ∷ 0 ∷ 1 ∷ 0 ∷ 1 ∷ 0 ∷ 1 ∷ []

abbrev raced : Calls × MemoryStore
raced = run (both first_wants second_wants) turns (λ j. starting, new_memory_store)

abbrev raced_port : ℤ
raced_port = new_port orders.for_port (pos 5000) new_memory_store

calls_race_example :
    (raced.0 0 ≡ ended (ok (new_connection (wanted (pos 1) (pos 2)) raced_port)))
    × (raced.0 1 ≡ ended (ok (new_connection (wanted (pos 2) (pos 1)) raced_port)))
    × (len raced.1.connections ≡ len new_memory_store.connections + 2)
calls_race_example =
    calls_race first_wants second_wants orders-AreOrders orders-AreOrders new_memory_store refl refl
      refl (none_stored (wanted (pos 1) (pos 2))) new-IsDense

both-AreOrders : (i : ℕ) → AreOrders (both first_wants second_wants i).orders
both-AreOrders zero = orders-AreOrders
both-AreOrders (suc i) = orders-AreOrders

run-Has_example :
    (k : ℤ) × (get raced.1.connections k
      ≡ some (new_connection (wanted (pos 1) (pos 2)) raced_port))
run-Has_example =
    run-Has (both first_wants second_wants) both-AreOrders turns new_memory_store 0
      (new_connection (wanted (pos 1) (pos 2)) raced_port) new-IsDense
      (calls_race first_wants second_wants orders-AreOrders orders-AreOrders new_memory_store refl
        refl refl (none_stored (wanted (pos 1) (pos 2))) new-IsDense).0
