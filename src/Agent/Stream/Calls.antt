-- ===== src/Agent/Stream/Calls.antt =====
-- The credentials with which the agent connects, and the node for which it speaks.
use wireguard_babeld_igp.Base.{◌≡◌, arith, String, true, false, List, [], ◌∷◌, nat_key, string_key}
use wireguard_babeld_igp.Base.Int.{to_int32}
use wireguard_babeld_igp.Errors.{Result, ok, err}
use wireguard_babeld_igp.Config.{AgentConfig}
use wireguard_babeld_igp.Agent.System.{Outcome, and_then}
use wireguard_babeld_igp.Agent.Session.{
  Call, load_cert, dial, close, register_node, subscribe, receive, sleep, cancel, Credentials,
  insecure, system_tls, file_tls, Grpc, Session, credentials, load_credentials, loaded, dial_with,
  dialed, connect, register, registered, subscribe_tasks, subscribed, start, start_handler,
  start_reporting, rejoin, reconnect, stop, close_last, close_conn, new_agent,
}
use wireguard_babeld_igp.Agent.Session.Ends.{Ends, Always, seq-Ends, wrap-Ends, last-Ends}
use wireguard_babeld_igp.Agent.Stream.{Steps}
use wireguard_babeld_igp.Agent.Stream.Kept.{IsKept, steps_keeps}

module _ (cfg : AgentConfig) where
  -- The credentials that the configuration asks for.
  pub Configured : Credentials → Type 0
  Configured insecure = cfg.tls_enabled ≡ false
  Configured system_tls = (cfg.tls_enabled ≡ true) × (cfg.ca_cert ≡ "")
  Configured (file_tls path) = (cfg.tls_enabled ≡ true) × (path ≡ cfg.ca_cert)

  -- A call that the configuration asks for.
  pub Proper : Call → Type 0
  Proper (load_cert path) = (cfg.tls_enabled ≡ true) × (path ≡ cfg.ca_cert)
  Proper (dial c address) = Configured c × (address ≡ cfg.grpc_address)
  Proper (register_node n id token) = (id ≡ to_int32 cfg.node_id) × (token ≡ cfg.token)
  Proper (subscribe n id token) = (id ≡ to_int32 cfg.node_id) × (token ≡ cfg.token)
  Proper (close n) = Unit
  Proper (receive n r) = Unit
  Proper (sleep n) = Unit
  Proper cancel = Unit

  pub AllProper : List Call → Type 0
  AllProper [] = Unit
  AllProper (c ∷ l) = Proper c × AllProper l

  pub Careful : Session → Type 0
  Careful s = AllProper s.calls

  module _ (grpc : Grpc) where
    CarefulDial : Result Credentials × Session → Type 0
    CarefulDial (ok c, s) = Configured c × Careful s
    CarefulDial (err e, s) = Careful s

    credentials-CarefulDial : (s : Session) → Careful s → CarefulDial (credentials grpc cfg s)
    unfolding CarefulDial Careful Proper Configured AllProper credentials load_credentials loaded
    credentials-CarefulDial s h = ground arith

    dial_with-Careful :
        (d : Result Credentials × Session) → CarefulDial d → Always Careful (dial_with grpc cfg d)
    unfolding CarefulDial Careful Proper Configured AllProper Ends dial_with dialed
    dial_with-Careful (ok c, s) h = ground arith
    dial_with-Careful (err e, s) h = ground arith

    connect-Careful : (s : Session) → Careful s → Always Careful (connect grpc cfg s)
    unfolding connect
    connect-Careful s h = dial_with-Careful (credentials grpc cfg s) (credentials-CarefulDial s h)

    register-Careful : (s : Session) → Careful s → Always Careful (register grpc cfg s)
    unfolding Careful Proper AllProper Ends register registered
    register-Careful s h = ground arith

    subscribe-Careful : (s : Session) → Careful s → Always Careful (subscribe_tasks grpc cfg s)
    unfolding Careful Proper AllProper Ends subscribe_tasks subscribed
    subscribe-Careful s h = ground arith

    close_conn-Careful : (s : Session) → Careful s → Careful (close_conn s)
    unfolding Careful Proper AllProper close_conn
    close_conn-Careful s h = ground arith

    stop-Careful : (s : Session) → Careful s → Careful (stop grpc cfg s).1
    unfolding Careful Proper AllProper stop close_last
    stop-Careful s h = ground arith

    rejoin-Careful : (s : Session) → Careful s → Always Careful (rejoin grpc cfg s)
    unfolding rejoin
    rejoin-Careful s h =
        seq-Ends Careful Careful Careful _ _ (register-Careful s h) subscribe-Careful

    reconnect-Careful : (s : Session) → Careful s → Always Careful (reconnect grpc cfg s)
    unfolding reconnect
    reconnect-Careful s h =
        seq-Ends Careful Careful Careful _ _
          (connect-Careful (close_conn s) (close_conn-Careful s h)) rejoin-Careful

    Careful-IsKept : IsKept grpc cfg Careful
    unfolding Careful AllProper Proper
    Careful-IsKept = record {
      rejoins = rejoin-Careful;
      reconnects = reconnect-Careful;
      stops = stop-Careful;
      logs = λ s n r h. (tt, h);
      pauses = λ s h. (tt, h);
      moves = λ s rs q st b h. h;
    }

    reporting-Careful :
        (d : Outcome Session)
        → Always Careful d
        → Always Careful (and_then d (start_reporting grpc cfg))
    unfolding Careful Ends and_then
    reporting-Careful (ok u, t) h = h
    reporting-Careful (err e, t) h = h

    start-Careful : (name : Result String) → Always Careful (start grpc cfg (new_agent cfg name))
    unfolding Careful AllProper start new_agent
    start-Careful name =
        seq-Ends Careful Careful Careful _ _
          (wrap-Ends _ _ _ _ (connect-Careful (new_agent cfg name) tt))
          (λ t h.
            seq-Ends Careful Careful Careful _ _
              (wrap-Ends _ _ _ _ (register-Careful (start_handler t) h))
              (λ u g. reporting-Careful _ (wrap-Ends _ _ _ _ (subscribe-Careful u g))))

    -- Whatever Start returns and however its steps go on, the agent connects only to the configured
    -- address, without TLS exactly when the configuration disables it and else with the configured
    -- certificates, and registers and subscribes only as its own node with its own token.
    pub steps-start-Careful :
        (name : Result String) (t : Session)
        → Steps grpc cfg (start grpc cfg (new_agent cfg name)).1 t
        → Careful t
    steps-start-Careful name t path =
        steps_keeps grpc cfg Careful Careful-IsKept _ t path
          (last-Ends Careful Careful _ (start-Careful name))
