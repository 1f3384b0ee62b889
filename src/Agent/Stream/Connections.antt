-- ===== src/Agent/Stream/Connections.antt =====
-- The connections that the agent has opened, and the clients that use them.
use mathlib.Core.Path.{subst}
use wireguard_babeld_igp.Base.{
  ℕ, suc, ◌≡◌, ◌≤◌, ◌<◌, refl, sym, ap, ◌∙◌, arith, Bool, true, false, List, [], ◌∷◌, Option, none,
  some, ◌||◌, ite, ◌=?◌, nat_key, string_key,
}
use wireguard_babeld_igp.Errors.{Error, Result, ok, err}
use wireguard_babeld_igp.Config.{AgentConfig}
use wireguard_babeld_igp.Agent.System.{Outcome}
use wireguard_babeld_igp.Agent.Session.{
  Call, close, dial, Grpc, Session, log_call, credentials, load_credentials, loaded, Credentials,
  dial_with, dialed, connect, register, registered, subscribe_tasks, subscribed, rejoin, reconnect,
  stop, close_last, close_conn,
}
use wireguard_babeld_igp.Agent.Session.Ends.{Ends, Always, seq-Ends}

closes : ℕ → Call → Bool
closes n (close m) = ite (m =? n) true false
closes n _ = false

-- Whether the call of Close on the connection `n` is among these.
unfoldable pub is_closed : ℕ → List Call → Bool
unfolding closes
is_closed n [] = false
is_closed n (c ∷ l) = closes n c || is_closed n l

unfoldable pub IsClosed : ℕ → Session → Type 0
IsClosed n s = is_closed n s.calls ≡ true

-- From `s` to `t` no connection is opened, and those closed stay closed.
pub record Same (s t : Session) : Type 0 where
  pub conn : t.conn ≡ s.conn
  pub client : t.client ≡ s.client
  pub status_client : t.status_client ≡ s.status_client
  pub task_client : t.task_client ≡ s.task_client
  pub opened : t.opened ≡ s.opened
  pub closed : (n : ℕ) → IsClosed n s → IsClosed n t

-- The agent's clients are on the connection that was opened last, its task handler's on `k`, and the
-- connections before `m` are closed.
pub record Holds (k m : ℕ) (s : Session) : Type 0 where
  pub conn : s.conn ≡ s.opened
  pub client : s.client ≡ s.opened
  pub status_client : s.status_client ≡ s.opened
  pub task_client : s.task_client ≡ k
  pub closed : (n : ℕ) → 0 < n → n < m → IsClosed n s

unfoldable pub Current : ℕ → Session → Type 0
Current k s = Holds k s.opened s

Same-Holds : (k m : ℕ) (s t : Session) → Same s t → Holds k m s → Holds k m t
Same-Holds k m s t e h = record {
  conn = e.conn ∙ h.conn ∙ sym e.opened;
  client = e.client ∙ h.client ∙ sym e.opened;
  status_client = e.status_client ∙ h.status_client ∙ sym e.opened;
  task_client = e.task_client ∙ h.task_client;
  closed = λ n p q. e.closed n (h.closed n p q);
}

pub Same-Current : (k : ℕ) (s t : Session) → Same s t → Current k s → Current k t
unfolding Current
Same-Current k s t e h = subst (λ m. Holds k m t) (sym e.opened) (Same-Holds k s.opened s t e h)

module _ (grpc : Grpc) (cfg : AgentConfig) where
  pub register-Same : (s : Session) → Always (Same s) (register grpc cfg s)
  unfolding IsClosed is_closed closes Ends register registered
  register-Same s = ground arith

  pub subscribe-Same : (s : Session) → Always (Same s) (subscribe_tasks grpc cfg s)
  unfolding IsClosed is_closed closes Ends subscribe_tasks subscribed
  subscribe-Same s = ground arith

  pub stop-Same : (s : Session) → Same s (stop grpc cfg s).1
  unfolding IsClosed is_closed closes stop close_last
  stop-Same s = ground arith

  credentials-Same : (s : Session) → Same s (credentials grpc cfg s).1
  unfolding IsClosed is_closed closes credentials load_credentials loaded
  credentials-Same s = ground arith

  close_conn-Holds : (k : ℕ) (s : Session) → Current k s → Holds k (suc s.opened) (close_conn s)
  unfolding Current IsClosed is_closed closes close_conn
  close_conn-Holds k s h = elim (s.conn =? 0) [
    | yes e ↦ record {
      conn = ground (arith, h.conn);
      client = ground (arith, h.client);
      status_client = ground (arith, h.status_client);
      task_client = ground (arith, h.task_client);
      closed = λ n p q. ground (arith, h.conn);
    }
    | no e ↦ record {
      conn = ground (arith, h.conn);
      client = ground (arith, h.client);
      status_client = ground (arith, h.status_client);
      task_client = ground (arith, h.task_client);
      closed = λ n p q. ground (arith, h.conn, h.closed n p);
    }
  ]

  fewer-Holds : (k m m' : ℕ) (s : Session) → m' ≤ m → Holds k m s → Holds k m' s
  fewer-Holds k m m' s l h = record {
    conn = h.conn;
    client = h.client;
    status_client = h.status_client;
    task_client = h.task_client;
    closed = λ n p q. h.closed n p (omega arith);
  }

  dialed-Current :
      (k : ℕ) (s : Session) (o : Option Error)
      → Holds k (suc s.opened) s
      → Always (Current k) (dialed grpc cfg o s)
  unfolding Current IsClosed Ends dialed
  dialed-Current k s (some e) h = fewer-Holds k (suc s.opened) s.opened s (omega arith) h
  dialed-Current k s none h = record {
    conn = refl;
    client = refl;
    status_client = refl;
    task_client = h.task_client;
    closed = h.closed;
  }

  pub logged-Same : (c : Call) (s : Session) → Same s (log_call c s)
  unfolding IsClosed is_closed
  logged-Same c s = ground arith

  close_conn_opened : (s : Session) → (close_conn s).opened ≡ s.opened
  unfolding close_conn
  close_conn_opened s = ground arith

  logged-Holds : (k m : ℕ) (c : Call) (s : Session) → Holds k m s → Holds k m (log_call c s)
  logged-Holds k m c s h = Same-Holds k m s (log_call c s) (logged-Same c s) h

  dial_with-Current :
      (k : ℕ) (d : Result Credentials × Session)
      → Holds k (suc d.1.opened) d.1
      → Always (Current k) (dial_with grpc cfg d)
  unfolding Current Ends dial_with
  dial_with-Current k (err e, s) h = fewer-Holds k (suc s.opened) s.opened s (omega arith) h
  dial_with-Current k (ok c, s) h =
      dialed-Current k (log_call (dial c cfg.grpc_address) s) _
        (logged-Holds k (suc s.opened) (dial c cfg.grpc_address) s h)

  pub connect-Current :
      (k : ℕ) (s : Session) → Holds k (suc s.opened) s → Always (Current k) (connect grpc cfg s)
  unfolding connect
  connect-Current k s h =
      let e = credentials-Same s in
      let g = Same-Holds k (suc s.opened) s (credentials grpc cfg s).1 e h in
      dial_with-Current k (credentials grpc cfg s)
        (subst (λ m. Holds k (suc m) (credentials grpc cfg s).1) (sym e.opened) g)

  pub connect_opens :
      (s : Session)
      → Ends (λ t. t.opened ≡ suc s.opened) (λ t. t.opened ≡ s.opened) (connect grpc cfg s)
  unfolding Ends connect credentials load_credentials loaded dial_with dialed
  connect_opens s = ground arith

  pub Same-ends :
      (k : ℕ) (s : Session) (d : Outcome Session)
      → Always (Same s) d
      → Current k s
      → Always (Current k) d
  unfolding Ends
  Same-ends k s (ok u, t) e h = Same-Current k s t e h
  Same-ends k s (err x, t) e h = Same-Current k s t e h

  pub rejoin-Current : (k : ℕ) (s : Session) → Current k s → Always (Current k) (rejoin grpc cfg s)
  unfolding rejoin
  rejoin-Current k s h =
      seq-Ends (Current k) (Current k) (Current k) _ _ (Same-ends k s _ (register-Same s) h)
        (λ t g. Same-ends k t _ (subscribe-Same t) g)

  pub reconnect-Current :
      (k : ℕ) (s : Session) → Current k s → Always (Current k) (reconnect grpc cfg s)
  unfolding reconnect
  reconnect-Current k s h =
      seq-Ends (Current k) (Current k) (Current k) _ _
        (connect-Current k (close_conn s) (
          subst (λ m. Holds k (suc m) (close_conn s)) (sym (close_conn_opened s))
            (close_conn-Holds k s h)))
        (λ t g. rejoin-Current k t g)

  pub moved-Current :
      (k : ℕ) (s t : Session)
      → t.conn ≡ s.conn
      → t.client ≡ s.client
      → t.status_client ≡ s.status_client
      → t.task_client ≡ s.task_client
      → t.opened ≡ s.opened
      → t.calls ≡ s.calls
      → Current k s
      → Current k t
  unfolding Current IsClosed
  moved-Current k s t a b c d e f h =
      Same-Current k s t
        (record {
          conn = a;
          client = b;
          status_client = c;
          task_client = d;
          opened = e;
          closed = λ n p. ap (is_closed n) f ∙ p;
        })
        h
