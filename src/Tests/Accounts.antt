-- ===== src/Tests/Accounts.antt =====
-- The theorems on MemoryStore's users: calls of each kind, and a rename in a shared record.
use wireguard_babeld_igp.Base.{
  ◌≢◌, ap, true, false, none, string_key, String_discrete, refl, ◌≡◌, ◌↔◌, arith, List, [], ◌∷◌,
  some, String,
}
use wireguard_babeld_igp.Base.Int.{ℤ, pos, inc, int_key, ℤ_discrete}
use wireguard_babeld_igp.Errors.{ok, err, missing}
use wireguard_babeld_igp.Types.{User, zero_user}
use wireguard_babeld_igp.Store.Memory.{MemoryStore, new_memory_store}
use wireguard_babeld_igp.Data.Map.{get, put}
use wireguard_babeld_igp.Data.Text.{contains_char}
use wireguard_babeld_igp.Store.Memory.Users.{
  get_user_by_username, get_user, create_user, update_fetched,
}
use wireguard_babeld_igp.Store.Memory.Users.Index.{new-IsIndexed, create_user-IsIndexed}
use wireguard_babeld_igp.Store.Memory.Users.Shared.{renamed, update_fetched_stale}
use wireguard_babeld_igp.Store.Memory.Users.Registry.{
  UserCall, create, update, delete_by, write_to, GrantsAll, registry, call_all,
}
use wireguard_babeld_igp.Store.Memory.Users.Calls.{call_all-GrantsAll}

abbrev alice : User
alice = record zero_user { username = "alice"; password = "pw" }

abbrev calls : List UserCall
calls =
    create 1 2 alice
    ∷ create 3 4 alice
    ∷ update 5 (record alice { id = pos 1; username = "bob" })
    ∷ write_to (pos 1) (λ u. record u { password = "new" }) (λ u. (refl, refl))
    ∷ delete_by (pos 7)
    ∷ []

call_all-GrantsAll_example :
    let (xs, s) = call_all calls new_memory_store in
    GrantsAll (registry new_memory_store) calls xs (registry s)
    × ((name : String) (u : User)
        → (get_user_by_username name s ≡ ok (some u))
          ↔ ((id : ℤ) × ((registry s).account id ≡ some u) × (u.username ≡ name)))
call_all-GrantsAll_example = call_all-GrantsAll calls (omega arith)

abbrev with_alice : MemoryStore
with_alice = (create_user 1 2 alice new_memory_store).1.1

abbrev stored_alice : User
stored_alice = record alice { id = inc (pos 0); created_at = 1; updated_at = 2 }

alice_stored : get with_alice.users (inc (pos 0)) ≡ some stored_alice
unfolding create_user get put String_discrete ℤ_discrete inc
alice_stored = refl

bob_free : get with_alice.usernames "bob" ≡ none
unfolding create_user get put String_discrete
bob_free = refl

abbrev bob : String
bob = "bob"

bob_new : bob ≢ "alice"
unfolding contains_char
bob_new e = let f : true ≡ false = ap (contains_char b'o') e in cc

update_fetched_stale_example :
    let (r, s') = update_fetched 5 (inc (pos 0)) (renamed "bob") with_alice in
    (r ≡ ok tt)
    × (get_user (inc (pos 0)) s' ≡ ok (record stored_alice { username = "bob"; updated_at = 5 }))
    × (get_user_by_username "bob" s' ≡ err missing)
    × (get_user_by_username "alice" s'
        ≡ ok (some (record stored_alice { username = "bob"; updated_at = 5 })))
update_fetched_stale_example =
    update_fetched_stale with_alice
      (create_user-IsIndexed new_memory_store new-IsIndexed 1 2 alice (omega arith)) 5 (inc (pos 0))
      "bob" stored_alice alice_stored bob_new bob_free
