-- ===== src/Store/Memory/Users/Registry.antt =====
-- What the users' methods of pkg/store/memory_store.go promise: a registry of accounts in which no two
-- have one name. The index of names is MemoryStore's own.
use mathlib.Core.Path.{subst}
use wireguard_babeld_igp.Base.{
  ◌≡◌, ◌≢◌, ◌⊎◌, inl, inr, refl, sym, arith, String, Option, none, some, List, [], ◌∷◌, ite,
  ite_ind, ◌=?◌, string_key, Option-cases,
}
use wireguard_babeld_igp.Base.Int.{ℤ, pos, int_key, inc, max_int, ◌<ℤ◌}
use wireguard_babeld_igp.Data.Map.{Map, get, put, delete, get-put, get-delete}
use wireguard_babeld_igp.Errors.{Result, ok, err, missing, username_exists}
use wireguard_babeld_igp.Types.{Time, User}
use wireguard_babeld_igp.Store.Memory.{MemoryStore}
use wireguard_babeld_igp.Store.Memory.Users.{
  create_user, create_if_free, insert_user, update_user, update_if_found, rename_user, save_user,
  delete_user, delete_if_found, write_user, write_if_found,
}
use wireguard_babeld_igp.Store.Memory.Users.Index.{
  IsIndexed, name_of, create_user-IsIndexed, update_user-IsIndexed, delete_user-IsIndexed,
  write_user-IsIndexed,
}

-- The accounts, and the last identifier given.
pub record Registry : Type 0 where
  pub account : ℤ → Option User
  pub last : ℤ

-- The calls, and the writes of callers to records that they share with the store, which keep the
-- identifier and the name.
pub data UserCall : Type 0 where
  create : Time → Time → User → UserCall
  update : Time → User → UserCall
  delete_by : ℤ → UserCall
  write_to :
      ℤ
      → (f : User → User) → ((u : User) → ((f u).id ≡ u.id) × ((f u).username ≡ u.username))
      → UserCall

pub Free : Registry → String → Type 0
Free r name = (id : ℤ) → name_of (r.account id) ≢ some name

abbrev pub set : ℤ → Option User → Registry → Registry
set id o r = record r { account = λ j. ite (id =? j) o (r.account j) }

abbrev pub added : Time → Time → User → Registry → Registry
added now later u r =
    record (set (inc r.last)
      (some (record u { id = inc r.last; created_at = now; updated_at = later })) r) {
        last = inc r.last;
      }

pub data Grants (r : Registry) : UserCall → Result (Unit {0}) → Registry → Type 0 where
  created :
      {now later : Time} {u : User}
      → Free r u.username
      → Grants r (create now later u) (ok tt) (added now later u r)
  taken :
      {now later : Time} {u : User} (id : ℤ)
      → name_of (r.account id) ≡ some u.username
      → Grants r (create now later u) (err (username_exists u.username)) r
  saved :
      {now : Time} {u : User} (old : User)
      → r.account u.id ≡ some old
      → (old.username ≡ u.username) ⊎ Free r u.username
      → Grants r (update now u) (ok tt) (set u.id (some (record u { updated_at = now })) r)
  renamed_taken :
      {now : Time} {u : User} (old : User) (id : ℤ)
      → r.account u.id ≡ some old
      → old.username ≢ u.username
      → name_of (r.account id) ≡ some u.username
      → Grants r (update now u) (err (username_exists u.username)) r
  unknown :
      {now : Time} {u : User} → r.account u.id ≡ none → Grants r (update now u) (err missing) r
  deleted :
      {id : ℤ} (old : User)
      → r.account id ≡ some old
      → Grants r (delete_by id) (ok tt) (set id none r)
  written :
      {id : ℤ} {f : User → User}
      {keeps : (u : User) → ((f u).id ≡ u.id) × ((f u).username ≡ u.username)} (old : User)
      → r.account id ≡ some old
      → Grants r (write_to id f keeps) (ok tt) (set id (some (f old)) r)
  unwritten :
      {id : ℤ} {f : User → User}
      {keeps : (u : User) → ((f u).id ≡ u.id) × ((f u).username ≡ u.username)}
      → r.account id ≡ none
      → Grants r (write_to id f keeps) (ok tt) r
  absent : {id : ℤ} → r.account id ≡ none → Grants r (delete_by id) (err missing) r

pub data GrantsAll : Registry → List UserCall → List (Result (Unit {0})) → Registry → Type 0 where
  done : {r : Registry} → GrantsAll r [] [] r
  then :
      {r t u : Registry} {c : UserCall} {l : List UserCall} {x : Result (Unit {0})}
      {xs : List (Result (Unit {0}))}
      → Grants r c x t
      → GrantsAll t l xs u
      → GrantsAll r (c ∷ l) (x ∷ xs) u

abbrev pub registry : MemoryStore → Registry
registry s = record { account = λ id. get s.users id; last = s.last_user_id }

unfoldable pub call : UserCall → MemoryStore → Result (Unit {0}) × MemoryStore
call (create now later u) s = (create_user now later u s).1
call (update now u) s = update_user now u s
call (delete_by id) s = delete_user id s
call (write_to id f keeps) s = (ok tt, write_user id f s)

unfoldable pub call_all : List UserCall → MemoryStore → List (Result (Unit {0})) × MemoryStore
call_all [] s = ([], s)
call_all (c ∷ l) s = let (x, s') = call c s in let (xs, s'') = call_all l s' in (x ∷ xs, s'')

registry-added :
    (now later : Time) (u : User) (s : MemoryStore)
    → let numbered = record u { id = inc s.last_user_id; created_at = now; updated_at = later } in
      registry (insert_user numbered s) ≡ added now later u (registry s)
unfolding insert_user
registry-added now later u s = λ i. record {
  account = λ j.
      get-put s.users (inc s.last_user_id) j
        (record u { id = inc s.last_user_id; created_at = now; updated_at = later }) i;
  last = inc s.last_user_id;
}

registry-put :
    (m : Map String ℤ) (id : ℤ) (u : User) (s : MemoryStore)
    → registry (record s { users = put s.users id u; usernames = m }) ≡ set id (some u) (registry s)
registry-put m id u s =
    λ i. record { account = λ j. get-put s.users id j u i; last = s.last_user_id }

registry-delete :
    (m : Map String ℤ) (id : ℤ) (s : MemoryStore)
    → registry (record s { usernames = m; users = delete s.users id }) ≡ set id none (registry s)
registry-delete m id s =
    λ i. record { account = λ j. get-delete s.users id j i; last = s.last_user_id }

-- The same call, where the new registry is given by an equation.
granted :
    {r t u : Registry} {c : UserCall} {x : Result (Unit {0})}
    → u ≡ t
    → Grants r c x t
    → Grants r c x u
granted {r} {t} {u} {c} {x} e g = subst (λ q. Grants r c x q) (sym e) g

module _ (s : MemoryStore) (v : IsIndexed s) where
  missing-Free : (name : String) → get s.usernames name ≡ none → Free (registry s) name
  unfolding Free
  missing-Free name e id h = elim (Option-cases (get s.users id)) [
    | inl n ↦ ground (arith, n, h)
    | inr (u, f) ↦ ground (arith, f, h, e, v.named id u f)
  ]

  abbrev pub Granted : UserCall → Result (Unit {0}) × MemoryStore → Type 0
  Granted c (x, t) = Grants (registry s) c x (registry t)

  create-Granted :
      (now later : Time) (u : User) → Granted (create now later u) (create_user now later u s).1
  unfolding create_user create_if_free
  create-Granted now later u = elim (Option-cases (get s.usernames u.username)) [
    | inl e ↦ rw e (granted (registry-added now later u s) (created (missing-Free u.username e)))
    | inr (id, e) ↦ rw e (taken id (v.owned u.username id e))
  ]

  rename-Granted :
      (now : Time) (u old : User) (o : Option ℤ)
      → get s.users u.id ≡ some old
      → old.username ≢ u.username
      → get s.usernames u.username ≡ o
      → Granted (update now u) (rename_user now old.username u s o)
  unfolding rename_user save_user
  rename-Granted now u old none e n h =
      granted
        (registry-put (put (delete s.usernames old.username) u.username u.id) u.id
          (record u { updated_at = now }) s)
        (saved old e (inr (missing-Free u.username h)))
  rename-Granted now u old (some id) e n h = renamed_taken old id e n (v.owned u.username id h)

  found-Granted :
      (now : Time) (u : User) (o : Option User)
      → get s.users u.id ≡ o
      → Granted (update now u) (update_if_found now u s o)
  unfolding update_if_found save_user
  found-Granted now u none e = unknown e
  found-Granted now u (some old) e =
      ite_ind (λ x. Granted (update now u) x) (old.username =? u.username) _ _
        (λ f.
          granted (registry-put s.usernames u.id (record u { updated_at = now }) s)
            (saved old e (inl f)))
        (λ n. rename-Granted now u old (get s.usernames u.username) e n refl)

  delete-Granted :
      (id : ℤ) (o : Option User)
      → get s.users id ≡ o
      → Granted (delete_by id) (delete_if_found id s o)
  unfolding delete_if_found
  delete-Granted id none e = absent e
  delete-Granted id (some old) e =
      granted (registry-delete (delete s.usernames old.username) id s) (deleted old e)

  write-Granted :
      (id : ℤ) (f : User → User)
      (keeps : (u : User) → ((f u).id ≡ u.id) × ((f u).username ≡ u.username)) (o : Option User)
      → get s.users id ≡ o
      → Granted (write_to id f keeps) (ok tt, write_if_found id f s o)
  unfolding write_if_found
  write-Granted id f keeps none e = unwritten e
  write-Granted id f keeps (some old) e =
      granted (registry-put s.usernames id (f old) s) (written old e)

  pub call-Granted : (c : UserCall) → Granted c (call c s)
  unfolding call update_user delete_user write_user
  call-Granted (create now later u) = create-Granted now later u
  call-Granted (update now u) = found-Granted now u (get s.users u.id) refl
  call-Granted (delete_by id) = delete-Granted id (get s.users id) refl
  call-Granted (write_to id f keeps) = write-Granted id f keeps (get s.users id) refl

  pub call-IsIndexed : (c : UserCall) → s.last_user_id <ℤ pos max_int → IsIndexed (call c s).1
  unfolding call
  call-IsIndexed (create now later u) l = create_user-IsIndexed s v now later u l
  call-IsIndexed (update now u) l = update_user-IsIndexed s v now u
  call-IsIndexed (delete_by id) l = delete_user-IsIndexed s v id
  call-IsIndexed (write_to id f keeps) l = write_user-IsIndexed s v id f keeps
