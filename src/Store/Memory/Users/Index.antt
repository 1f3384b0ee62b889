-- ===== src/Store/Memory/Users/Index.antt =====
-- The two maps of users: names and identifiers determine one another.
use wireguard_babeld_igp.Base.{
  ite_ind, ◌=?◌, String, ◌≡◌, refl, inl, inr, Option, none, some, true, false, arith, Option-cases,
  string_key, ◌⊎◌,
}
use wireguard_babeld_igp.Base.Int.{
  ℤ, pos, int_key, ◌≤ℤ◌, ◌<ℤ◌, IsInt, max_int, inc, inc_bounds, inc_parts,
}
use wireguard_babeld_igp.Data.Map.{get, delete, get-put, get-delete, get-empty}
use wireguard_babeld_igp.Errors.{Result, ok, err, missing}
use wireguard_babeld_igp.Types.{Time, User}
use wireguard_babeld_igp.Store.Memory.{MemoryStore, new_memory_store}
use wireguard_babeld_igp.Store.Memory.Users.{
  create_user, create_if_free, insert_user, get_user, get_user_by_username, check_user_exists,
  update_user, update_if_found, rename_user, save_user, delete_user, delete_if_found, write_user,
  write_if_found,
}

abbrev pub name_of : Option User → Option String
name_of none = none
name_of (some u) = some u.username

-- Users stand under their identifiers, none above the last one, and `usernames` is the inverse of
-- the names that they have.
pub record IsIndexed (s : MemoryStore) : Type 0 where
  pub nonneg : pos 0 ≤ℤ s.last_user_id
  pub int : IsInt s.last_user_id
  pub named :
      (id : ℤ) (u : User)
      → get s.users id ≡ some u
      → (u.id ≡ id) × (get s.usernames u.username ≡ some id) × (id ≤ℤ s.last_user_id)
  pub owned :
      (name : String) (id : ℤ)
      → get s.usernames name ≡ some id
      → name_of (get s.users id) ≡ some name

pub new-IsIndexed : IsIndexed new_memory_store
new-IsIndexed = record {
  nonneg = omega arith;
  int = omega arith;
  named = λ k n h. cc (get-empty {V = User} k);
  owned = λ k n h. cc (get-empty {V = ℤ} k);
}

module _ (s : MemoryStore) (v : IsIndexed s) where
  next_user_free : s.last_user_id <ℤ pos max_int → get s.users (inc s.last_user_id) ≡ none
  next_user_free room = elim (Option-cases (get s.users (inc s.last_user_id))) [
    | inl e ↦ e
    | inr (u, e) ↦
        absurd (omega (arith, (v.named (inc s.last_user_id) u e).2, inc_parts s.last_user_id v.int))
  ]

  insert_user-IsIndexed :
      (user : User)
      → s.last_user_id <ℤ pos max_int
      → user.id ≡ inc s.last_user_id
      → get s.usernames user.username ≡ none
      → IsIndexed (insert_user user s)
  unfolding insert_user
  insert_user-IsIndexed user room e free = record {
    nonneg = ground (arith, inc_parts s.last_user_id v.int);
    int = ground (arith, inc_bounds s.last_user_id);
    named = λ id u h. ground (
      arith,
      v.named id u,
      inc_parts s.last_user_id v.int,
      get-put s.users user.id id user,
      get-put s.usernames user.username u.username user.id,
    );
    owned = λ name id h. ground (
      arith,
      v.owned name id,
      next_user_free room,
      get-put s.users user.id id user,
      get-put s.usernames user.username name user.id,
    );
  }

  -- CreateUser keeps the index of names right, while the last identifier is below the largest `int`.
  pub create_user-IsIndexed :
      (now later : Time) (user : User)
      → s.last_user_id <ℤ pos max_int
      → IsIndexed (create_user now later user s).1.1
  unfolding create_user
  create_user-IsIndexed now later user room = elim (Option-cases (get s.usernames user.username)) [
    | inl free ↦
        rw (free, create_if_free)
          (insert_user-IsIndexed
            (record user { id = inc s.last_user_id; created_at = now; updated_at = later }) room
            refl free)
    | inr (id, taken) ↦ rw (taken, create_if_free) v
  ]

  -- DeleteUser keeps the index of names right.
  pub delete_user-IsIndexed : (id : ℤ) → IsIndexed (delete_user id s).1
  unfolding delete_user delete_if_found
  delete_user-IsIndexed id = elim (Option-cases (get s.users id)) [
    | inl e ↦ rw (e, delete_if_found) v
    | inr (old, e) ↦
        rw (e, delete_if_found)
          (record {
            nonneg = v.nonneg;
            int = v.int;
            named = λ j u h. ground (
              arith,
              v.named j u,
              v.named id old e,
              get-delete s.users id j,
              get-delete s.usernames old.username u.username,
            );
            owned = λ name j h. ground (
              arith,
              v.owned name j,
              v.named id old e,
              get-delete s.users id j,
              get-delete s.usernames old.username name,
            );
          })
  ]

  -- A write to a shared record keeps the index right if it keeps the identifier and the name.
  pub write_user-IsIndexed :
      (id : ℤ) (f : User → User)
      → ((u : User) → ((f u).id ≡ u.id) × ((f u).username ≡ u.username))
      → IsIndexed (write_user id f s)
  unfolding write_user
  write_user-IsIndexed id f keeps = elim (Option-cases (get s.users id)) [
    | inl e ↦ rw (e, write_if_found) v
    | inr (old, e) ↦
        rw (e, write_if_found)
          (record {
            nonneg = v.nonneg;
            int = v.int;
            named = λ j u h.
                ground
                  (arith, v.named j u, v.named id old e, keeps old, get-put s.users id j (f old));
            owned = λ name j h.
                ground (arith, v.owned name j, keeps old, e, get-put s.users id j (f old));
          })
  ]

  save_user-IsIndexed :
      (now : Time) (user : User) (old : User)
      → get s.users user.id ≡ some old
      → old.username ≡ user.username
      → IsIndexed (save_user now user s).1
  unfolding save_user
  save_user-IsIndexed now user old e same = record {
    nonneg = v.nonneg;
    int = v.int;
    named = λ j u h. ground (
      arith,
      v.named j u,
      v.named user.id old e,
      get-put s.users user.id j (record user { updated_at = now }),
    );
    owned = λ name j h.
        ground
          (arith, v.owned name j, get-put s.users user.id j (record user { updated_at = now }));
  }

  rename_user-IsIndexed :
      (now : Time) (user : User) (old : User)
      → get s.users user.id ≡ some old
      → get s.usernames user.username ≡ none
      → IsIndexed (rename_user now old.username user s none).1
  unfolding rename_user
  rename_user-IsIndexed now user old e free = record {
    nonneg = v.nonneg;
    int = v.int;
    named = λ j u h. ground (
      arith,
      v.named j u,
      v.named user.id old e,
      get-put s.users user.id j (record user { updated_at = now }),
      get-put (delete s.usernames old.username) user.username u.username user.id,
      get-delete s.usernames old.username u.username,
    );
    owned = λ name j h. ground (
      arith,
      v.owned name j,
      v.named user.id old e,
      get-put s.users user.id j (record user { updated_at = now }),
      get-put (delete s.usernames old.username) user.username name user.id,
      get-delete s.usernames old.username name,
    );
  }

  update_found-IsIndexed :
      (now : Time) (user : User) (old : User)
      → get s.users user.id ≡ some old
      → IsIndexed (update_if_found now user s (some old)).1
  unfolding update_if_found
  update_found-IsIndexed now user old e =
      ite_ind (λ (x : Result (Unit {0}) × MemoryStore). IsIndexed x.1)
        (old.username =? user.username) (save_user now user s)
        (rename_user now old.username user s (get s.usernames user.username))
        (λ same. save_user-IsIndexed now user old e same)
        (λ _. elim (Option-cases (get s.usernames user.username)) [
          | inl free ↦ rw free (rename_user-IsIndexed now user old e free)
          | inr (id, taken) ↦ rw (taken, rename_user) v
        ])

  -- UpdateUser keeps the index of names right, also when it renames the user, or finds the name taken.
  pub update_user-IsIndexed : (now : Time) (user : User) → IsIndexed (update_user now user s).1
  unfolding update_user
  update_user-IsIndexed now user = elim (Option-cases (get s.users user.id)) [
    | inl e ↦ rw (e, update_if_found) v
    | inr (old, e) ↦ rw e (update_found-IsIndexed now user old e)
  ]

  -- The lookup by name answers with a user of that name, or with ErrNotFound: never with nil.
  pub get_user_by_username_cases :
      (name : String)
      → ((get_user_by_username name s ≡ err missing) × (check_user_exists name s ≡ ok false))
        ⊎ ((u : User) × (get_user_by_username name s ≡ ok (some u))
            × (u.username ≡ name)
            × (get_user u.id s ≡ ok u)
            × (check_user_exists name s ≡ ok true))
  unfolding get_user_by_username get_user check_user_exists
  get_user_by_username_cases name = elim (Option-cases (get s.usernames name)) [
    | inl e ↦ inl (ground (arith, e), ground (arith, e))
    | inr (id, e) ↦ elim (Option-cases (get s.users id)) [
      | inl e' ↦ absurd (ground (arith, v.owned name id e))
      | inr (u, e') ↦ inr (
        u,
        ground (arith, e),
        ground (arith, v.owned name id e),
        ground (arith, v.named id u e'),
        ground (arith, e),
      )
    ]
  ]

-- A user with a free name is stored under the next identifier, and found under its name.
pub create_user_free :
    (now later : Time) (user : User) (s : MemoryStore)
    → check_user_exists user.username s ≡ ok false
    → let numbered = record user {
      id = inc s.last_user_id;
      created_at = now;
      updated_at = later;
    } in
      (s' : MemoryStore) × (create_user now later user s ≡ (numbered, (ok tt, s')))
      × (get_user_by_username user.username s' ≡ ok (some numbered))
unfolding create_user check_user_exists get_user_by_username insert_user
create_user_free now later user s h = elim (Option-cases (get s.usernames user.username)) [
  | inl free ↦
      let numbered : User = record user {
        id = inc s.last_user_id;
        created_at = now;
        updated_at = later;
      } in
      (
        insert_user numbered s,
        rw (free, create_if_free),
        ground (
          arith,
          get-put s.users numbered.id numbered.id numbered,
          get-put s.usernames user.username user.username numbered.id,
        ),
      )
  | inr (id, taken) ↦ absurd (ground (arith, taken))
]
