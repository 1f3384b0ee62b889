-- ===== src/Server/Services/Statuses/Reports.antt =====
-- What ReportStatus does with a report, over MemoryStore.
use wireguard_babeld_igp.Base.{
  ◌≡◌, ◌≢◌, ◌↔◌, ◌∙◌, ap, refl, sym, inl, inr, true, String, Option, none, some, List, [], ◌∷◌,
  if_pos, if_neg, ◌=?◌, string_key,
}
use wireguard_babeld_igp.Base.Int.{ℤ, int_key}
use wireguard_babeld_igp.Data.Map.{get, put, get-put}
use wireguard_babeld_igp.Data.Map.Range.{In, IsOrder, range, range-get}
use wireguard_babeld_igp.Errors.{Result, ok, err}
use wireguard_babeld_igp.Types.{SystemMetrics}
use wireguard_babeld_igp.Store.Memory.{MemoryStore}
use wireguard_babeld_igp.Store.Memory.Statuses as Memory
use wireguard_babeld_igp.Store.Interface.{MapOrders, memory_store}
use wireguard_babeld_igp.Server.Middleware.Node.{validate_token}
use wireguard_babeld_igp.Server.Services.Tasks.{Stream}
use wireguard_babeld_igp.Server.Services.Statuses.{
  PbStatus, StatusReport, StatusService, Answer, panics, node_status, report_status, save_status,
  save_metrics, get_node_status, offer, send_to, send_to_all, answered,
}

module _ (orders : MapOrders) (send : Stream → Option PbStatus → Result (Unit {0}))
    (visit : List (String × List Stream) → List (String × List Stream)) where
  offer_holds :
      (x : Stream × Option PbStatus) (stream : Stream) (m : Option PbStatus) (r : Result (Unit {0}))
      (sent : List (Stream × Option PbStatus))
      → In x sent
      → In x (offer (memory_store orders) send stream m r sent)
  unfolding offer
  offer_holds x stream m (ok u) sent i = inr i
  offer_holds x stream m (err e) sent i = i

  send_to_holds :
      (x : Stream × Option PbStatus) (m : Option PbStatus) (l : List Stream)
      (sent : List (Stream × Option PbStatus))
      → In x sent
      → In x (send_to (memory_store orders) send m l sent)
  unfolding send_to
  send_to_holds x m [] sent i = i
  send_to_holds x m (stream ∷ l) sent i =
      send_to_holds x m l _ (offer_holds x stream m (send stream m) sent i)

  send_to_sends :
      (m : Option PbStatus) (stream : Stream) (l : List Stream)
      (sent : List (Stream × Option PbStatus))
      → send stream m ≡ ok tt
      → In stream l
      → In (stream, m) (send_to (memory_store orders) send m l sent)
  unfolding send_to offer
  send_to_sends m stream [] sent e h = absurd h
  send_to_sends m stream (x ∷ l) sent e (inl f) =
      send_to_holds (stream, m) m l _ (rw (sym f, e) (inl refl))
  send_to_sends m stream (x ∷ l) sent e (inr h) = send_to_sends m stream l _ e h

  send_to_all_holds :
      (x : Stream × Option PbStatus) (m : Option PbStatus) (l : List (String × List Stream))
      (sent : List (Stream × Option PbStatus))
      → In x sent
      → In x (send_to_all (memory_store orders) send m l sent)
  unfolding send_to_all
  send_to_all_holds x m [] sent i = i
  send_to_all_holds x m ((_, s) ∷ l) sent i = send_to_all_holds x m l _ (send_to_holds x m s sent i)

  send_to_all_sends :
      (m : Option PbStatus) (token : String) (s : List Stream) (stream : Stream)
      (l : List (String × List Stream)) (sent : List (Stream × Option PbStatus))
      → send stream m ≡ ok tt
      → In (token, s) l
      → In stream s
      → In (stream, m) (send_to_all (memory_store orders) send m l sent)
  unfolding send_to_all
  send_to_all_sends m token s stream [] sent e h i = absurd h
  send_to_all_sends m token s stream ((_, r) ∷ l) sent e (inl f) i =
      let g : s ≡ r = ap (λ p. p.1) f in
      send_to_all_holds (stream, m) m l _ (rw (sym g) (send_to_sends m stream s sent e i))
  send_to_all_sends m token s stream ((_, r) ∷ l) sent e (inr h) i =
      send_to_all_sends m token s stream l _ e h i

  -- The report carries a status, and the status metrics.
  abbrev pub HasMetrics : Option PbStatus → Type 0
  HasMetrics none = ⊥
  HasMetrics (some st) = (m : SystemMetrics) × (st.metrics ≡ some m)

  metrics_cases :
      (st : PbStatus) (o : Option SystemMetrics) (t : StatusService MemoryStore)
      → st.metrics ≡ o
      → ((save_metrics (memory_store orders) send st o t).0 ≡ panics) ↔ (¬ HasMetrics (some st))
  unfolding save_metrics
  metrics_cases st none t e = (λ p (m, f). cc, λ n. refl)
  metrics_cases st (some m) t e = (λ p. cc, λ n. absurd (n (m, e)))

  status_cases :
      (o : Option PbStatus) (t : StatusService MemoryStore)
      → ((save_status (memory_store orders) send o t).0 ≡ panics) ↔ (¬ HasMetrics o)
  unfolding save_status
  status_cases none t = (λ p h. h, λ n. refl)
  status_cases (some st) t = metrics_cases st st.metrics t refl

  module _ (req : StatusReport) (t : StatusService MemoryStore) where
    abbrev after : Answer × StatusService MemoryStore
    after = report_status (memory_store orders) send visit req t

    abbrev broadcast : List (Stream × Option PbStatus)
    broadcast = send_to_all (memory_store orders) send req.status (range visit t.subscribers) t.sent

    after_lem :
        (st : PbStatus) (m : SystemMetrics)
        → validate_token (memory_store orders) req.node_id req.token t.store ≡ true
        → req.status ≡ some st
        → st.metrics ≡ some m
        → after ≡ (
          answered (memory_store orders) send,
          record t {
            node_statuses = put t.node_statuses req.node_id (some st);
            sent = broadcast;
            store = record t.store { status = put t.store.status st.node_id (node_status st m) };
          },
        )
    unfolding report_status save_status save_metrics Memory.update_node_status
    after_lem st m v e f =
        rw (v, e)
          (ap
            (λ o. save_metrics (memory_store orders) send st o (record t {
              node_statuses = put t.node_statuses req.node_id (some st);
              sent =
                  send_to_all (memory_store orders) send (some st) (range visit t.subscribers)
                    t.sent;
            }))
            f)

    -- A report with its node's token, a status and metrics is acknowledged. It becomes the status that
    -- the service has for the node that reports, and for no other. The store takes it for the node that
    -- the status names, which the service does not compare with the node that reports.
    pub report_status_lem :
        (st : PbStatus) (m : SystemMetrics)
        → validate_token (memory_store orders) req.node_id req.token t.store ≡ true
        → req.status ≡ some st
        → st.metrics ≡ some m
        → (after.0 ≡ answered (memory_store orders) send)
          × (get_node_status (memory_store orders) send req.node_id after.1 ≡ some (some st))
          × ((j : ℤ)
              → j ≢ req.node_id
              → get_node_status (memory_store orders) send j after.1
                ≡ get_node_status (memory_store orders) send j t)
          × (Memory.get_node_status st.node_id after.1.store ≡ ok (node_status st m))
          × ((j : ℤ)
              → j ≢ st.node_id
              → Memory.get_node_status j after.1.store ≡ Memory.get_node_status j t.store)
    unfolding report_status save_status save_metrics get_node_status Memory.update_node_status
        Memory.get_node_status
    report_status_lem st m v e f = rw (after_lem st m v e f) (
      refl,
      get-put t.node_statuses req.node_id req.node_id (some st)
          ∙ if_pos (req.node_id =? req.node_id) refl (some (some st))
              (get t.node_statuses req.node_id),
      λ j n.
          get-put t.node_statuses req.node_id j (some st)
          ∙ if_neg (req.node_id =? j) (λ e. n (sym e)) (some (some st)) (get t.node_statuses j),
      ap (Memory.or_status_missing st.node_id) (
          get-put t.store.status st.node_id st.node_id (node_status st m)
          ∙ if_pos (st.node_id =? st.node_id) refl (some (node_status st m))
              (get t.store.status st.node_id)),
      λ j n. ap (Memory.or_status_missing j) (
          get-put t.store.status st.node_id j (node_status st m)
          ∙ if_neg (st.node_id =? j) (λ e. n (sym e)) (some (node_status st m))
              (get t.store.status j)),
    )

    -- A report that is acknowledged reaches, in any order of the loop, every subscribed stream that
    -- takes it.
    pub report_status_sends :
        (st : PbStatus) (m : SystemMetrics) (token : String) (streams : List Stream)
        (stream : Stream)
        → IsOrder visit
        → validate_token (memory_store orders) req.node_id req.token t.store ≡ true
        → req.status ≡ some st
        → st.metrics ≡ some m
        → get t.subscribers token ≡ some streams
        → In stream streams
        → send stream (some st) ≡ ok tt
        → In (stream, some st) after.1.sent
    report_status_sends st m token streams stream o v e f g i h =
        rw (after_lem st m v e f, e)
          (send_to_all_sends (some st) token streams stream (range visit t.subscribers) t.sent h
            (range-get visit t.subscribers token streams o g) i)

    -- A report with its node's token panics exactly when it lacks a status, or its status metrics.
    pub report_status_panics :
        validate_token (memory_store orders) req.node_id req.token t.store ≡ true
        → (after.0 ≡ panics) ↔ (¬ HasMetrics req.status)
    unfolding report_status
    report_status_panics v = rw v (status_cases req.status _)
