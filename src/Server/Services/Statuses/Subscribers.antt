-- ===== src/Server/Services/Statuses/Subscribers.antt =====
-- SubscribeStatus from its start to its end.
use wireguard_babeld_igp.Base.{
  ◌≡◌, ◌∙◌, ap, refl, sym, inl, inr, true, String, Option, none, some, List, [], ◌∷◌, ◌++◌, if_pos,
  if_neg, ◌=?◌, string_key, nat_key,
}
use wireguard_babeld_igp.Base.Int.{ℤ, int_key}
use wireguard_babeld_igp.Data.Map.{Map, get, put, get-put}
use wireguard_babeld_igp.Data.Map.Range.{In, IsOrder, range, range-get}
use wireguard_babeld_igp.Errors.{Result, ok, err}
use wireguard_babeld_igp.Store.Interface.{Store}
use wireguard_babeld_igp.Server.Services.Tasks.{Stream}
use wireguard_babeld_igp.Server.Services.Statuses.{
  PbStatus, StatusService, streams_of, remove_first, validate_subscriber, subscribe, unsubscribe,
  left, send_each, offer,
}

remove_first-append :
    (stream : Stream) (l : List Stream)
    → ¬ In stream l
    → remove_first stream (l ++ (stream ∷ [])) ≡ l
unfolding remove_first
remove_first-append stream [] n = if_pos (stream =? stream) refl [] _
remove_first-append stream (x ∷ l) n =
    if_neg (x =? stream) (λ e. n (inl (sym e))) _ _
    ∙ ap (λ r. x ∷ r) (remove_first-append stream l (λ i. n (inr i)))

module _ {S : Type 0} (store : Store S) (send : Stream → Option PbStatus → Result (Unit {0}))
    (visit : List (ℤ × Option PbStatus) → List (ℤ × Option PbStatus)) where
  streams_after :
      (f : Map String (List Stream)) (token key : String) (stream : Stream)
      → ¬ In stream (streams_of (get f token))
      → let l = streams_of (get f token) ++ (stream ∷ []) in
        streams_of (get (put (put f token l) token (remove_first stream l)) key)
        ≡ streams_of (get f key)
  streams_after f token key stream n =
      let l : List Stream = streams_of (get f token) ++ (stream ∷ []) in
      let r : List Stream = remove_first stream l in
      let e = get-put (put f token l) token key r in
      elim (token =? key) [
        | yes same ↦
            ap streams_of (e ∙ if_pos (token =? key) same (some r) (get (put f token l) key))
            ∙ remove_first-append stream (streams_of (get f token)) n
            ∙ ap (λ k. streams_of (get f k)) same
        | no other ↦ ap streams_of (
            e
            ∙ if_neg (token =? key) other (some r) (get (put f token l) key)
            ∙ get-put f token key l
            ∙ if_neg (token =? key) other (some l) (get f key))
      ]

  -- A subscription with a token that is not empty waits, and its end leaves every token with the
  -- streams that it had, where the stream was not subscribed to the token before.
  pub unsubscribe-subscribe :
      (token key : String) (stream : Stream) (t : StatusService S)
      → validate_subscriber token ≡ true
      → ¬ In stream (streams_of (get t.subscribers token))
      → let (e, t') = subscribe store send visit token stream t in
        (e ≡ none)
        × (streams_of (get (unsubscribe store send token stream t').subscribers key)
            ≡ streams_of (get t.subscribers key))
  unfolding subscribe unsubscribe left
  unsubscribe-subscribe token key stream t v n =
      let l : List Stream = streams_of (get t.subscribers token) ++ (stream ∷ []) in
      let held =
        get-put t.subscribers token token l
        ∙ if_pos (token =? token) refl (some l) (get t.subscribers token) in
      rw (v, held) (refl, streams_after t.subscribers token key stream n)

  offer_keeps :
      (x : Stream × Option PbStatus) (stream : Stream) (m : Option PbStatus) (r : Result (Unit {0}))
      (sent : List (Stream × Option PbStatus))
      → In x sent
      → In x (offer store send stream m r sent)
  unfolding offer
  offer_keeps x stream m (ok u) sent i = inr i
  offer_keeps x stream m (err e) sent i = i

  send_each_keeps :
      (x : Stream × Option PbStatus) (stream : Stream) (l : List (ℤ × Option PbStatus))
      (sent : List (Stream × Option PbStatus))
      → In x sent
      → In x (send_each store send stream l sent)
  unfolding send_each
  send_each_keeps x stream [] sent i = i
  send_each_keeps x stream ((_, m) ∷ l) sent i =
      send_each_keeps x stream l _ (offer_keeps x stream m (send stream m) sent i)

  send_each_sends :
      (id : ℤ) (m : Option PbStatus) (stream : Stream) (l : List (ℤ × Option PbStatus))
      (sent : List (Stream × Option PbStatus))
      → send stream m ≡ ok tt
      → In (id, m) l
      → In (stream, m) (send_each store send stream l sent)
  unfolding send_each offer
  send_each_sends id m stream [] sent e h = absurd h
  send_each_sends id m stream ((_, w) ∷ l) sent e (inl f) =
      let g : m ≡ w = ap (λ p. p.1) f in
      send_each_keeps (stream, m) stream l _ (rw (sym g, e) (inl refl))
  send_each_sends id m stream ((_, w) ∷ l) sent e (inr h) = send_each_sends id m stream l _ e h

  -- A subscription with a token that is not empty sends, in any order of the loop, every status that
  -- the service holds and the stream takes.
  pub subscribe_current :
      (token : String) (stream : Stream) (t : StatusService S)
      → IsOrder visit
      → validate_subscriber token ≡ true
      → (id : ℤ) (m : Option PbStatus) → get t.node_statuses id ≡ some m
      → send stream m ≡ ok tt
      → In (stream, m) (subscribe store send visit token stream t).1.sent
  unfolding subscribe
  subscribe_current token stream t o v id m h e = rw v (
      send_each_sends id m stream (range visit t.node_statuses) t.sent e
        (range-get visit t.node_statuses id m o h))
