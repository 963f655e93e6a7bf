-- ===== src/Client/Unread.antt =====
-- Connecting: the handshake waits for responses before any task reads frames.
use hmmp_python_sdk.Base.{
  nat_eq, ℕ, ◌≡◌, refl, [], ◌∷◌, List, Bytes, Text, Bool, true, false, Option, none, some, Result,
  Raised, ok, err, attribute_error, timeout_error, nonce_error, handshake_timeout_error,
  cancelled_error, arith,
}
use hmmp_python_sdk.Base.Dict
use hmmp_python_sdk.Base.Dict.{Dict}
use hmmp_python_sdk.Constants.OpCode
use hmmp_python_sdk.Crypto.Primitives.{Primitives}
use hmmp_python_sdk.Frame.Metadata.{Value, MsgPack}
use hmmp_python_sdk.Frame.Encoder.{encode}
use hmmp_python_sdk.Frame.Decoder.{Frame}
use hmmp_python_sdk.Connection.Stream.{Connection, End, authenticating, next_stream_id, close}
use hmmp_python_sdk.Connection.Transport
use hmmp_python_sdk.Connection.Transport.{send_over, send_frame}
use hmmp_python_sdk.Connection.Router.{
  Router, Event, Outcome, result, failed, cancelled, register, cancel, route, register_request,
  cancel_request, settle,
}
use hmmp_python_sdk.Client.Session.{
  Link, Traffic, outcome_of, awaited, or_wait, wait, timeout_as, send_and_wait, send_encoded,
  conn_after, request, exchange,
}
use hmmp_python_sdk.Client.State.{
  Client, M, ◌>>=◌, and_then, lift, current, is_connected, ready, is_authenticated,
}
use hmmp_python_sdk.Client.Bodies.{handshake_body, handshake_metadata, signature_of}
use hmmp_python_sdk.Client.Handshake.{
  Meeting, open_connection, set_state, state_set, linked, exchange_on, timed, call, nonce_challenge,
  send_handshake_request, challenge_if, finish_handshake, send_signed, handshake,
  establish_connection, connect, connect_if,
}

abbrev Failed : {A : Type 0} → Result A → Type 0
Failed (ok a) = ⊥
Failed (err e) = Unit

-- The client was started, no task reads, and it is not connected and authenticated.
abbrev pub IsIdle : Client → Type 0
IsIdle c = (c.link.reading ≡ false) × (is_connected c ≡ false) × (c.running ≡ true)

abbrev Fails : {A : Type 0} → M A → Type 0
Fails m = (c : Client) → IsIdle c → Failed (m c).1 × IsIdle (m c).0

abbrev Keeps : {A : Type 0} → M A → Type 0
Keeps m = (c : Client) → IsIdle c → IsIdle (m c).0

and_then-Failed :
    {A B : Type 0} (p : Client × Result A) (f : A → M B)
    → Failed p.1 × IsIdle p.0
    → Failed (and_then p f).1 × IsIdle (and_then p f).0
and_then-Failed (c, ok a) f h = absurd h.0
and_then-Failed (c, err e) f h = h

and_then-IsIdle :
    {A B : Type 0} (p : Client × Result A) (f : A → M B)
    → IsIdle p.0
    → ((a : A) → Fails (f a))
    → Failed (and_then p f).1 × IsIdle (and_then p f).0
and_then-IsIdle (c, ok a) f h k = k a c h
and_then-IsIdle (c, err e) f h k = (tt, h)

Fails-first : {A B : Type 0} (m : M A) (f : A → M B) → Fails m → Fails (m >>= f)
Fails-first m f h c v = and_then-Failed (m c) f (h c v)

Fails-later :
    {A B : Type 0} (m : M A) (f : A → M B) → Keeps m → ((a : A) → Fails (f a)) → Fails (m >>= f)
Fails-later m f h k c v = and_then-IsIdle (m c) f (h c v) k

-- Awaiting, where nothing reads.
settle_awaits :
    (k future : ℕ) (r : Router) (o : Option ℕ) (outcome : Outcome)
    → outcome_of future (settle k cancelled r o).1 ≡ some outcome
    → Failed (awaited outcome)
settle_awaits k future r none (result f) h = absurd (cc)
settle_awaits k future r (some n) (result f) h = ground arith
settle_awaits k future r o failed h = tt
settle_awaits k future r o cancelled h = tt

or_wait-Failed :
    (r : Router) (o : Option Outcome) (later : Router × Result Frame)
    → ((outcome : Outcome) → o ≡ some outcome → Failed (awaited outcome))
    → Failed later.1
    → Failed (or_wait r o later).1
or_wait-Failed r (some outcome) later h k = h outcome refl
or_wait-Failed r none later h k = k

wait-Failed : (id future : ℕ) (es : List Event) (r : Router) → Failed (wait false id future es r).1
unfolding wait cancel_request
wait-Failed id future [] r = tt
wait-Failed id future (register k ∷ es) r = wait-Failed id future es (register_request k r).0
wait-Failed id future (cancel k ∷ es) r =
    or_wait-Failed (cancel_request k r).0 (outcome_of future (cancel_request k r).1)
      (wait false id future es (cancel_request k r).0)
      (settle_awaits k future r (Dict.get r.pending_requests k))
      (wait-Failed id future es (cancel_request k r).0)
wait-Failed id future (route f ∷ es) r = wait-Failed id future es r

send-Failed :
    (id future : ℕ) (es : List Event) (sent : Result (Unit {0})) (r : Router)
    → Failed (send_and_wait false id future es sent r).1
send-Failed id future es (ok u) r = wait-Failed id future es r
send-Failed id future es (err e) r = tt

encoded-Failed :
    (id : ℕ) (es : List Event) (sent : Result (Unit {0})) (encoded : Result Bytes) (r : Router)
    → Failed (send_encoded false id es sent encoded r).1
encoded-Failed id es sent (ok bytes) r =
    send-Failed id (register_request id r).1 es sent (register_request id r).0
encoded-Failed id es sent (err e) r = tt

timeout_as-Failed : (e : Raised) (r : Result Frame) → Failed r → Failed (timeout_as e r)
timeout_as-Failed e (ok f) h = h
timeout_as-Failed e (err timeout_error) h = tt
timeout_as-Failed e (err other) h = tt

close-unready :
    (conn : Connection)
    → is_authenticated conn.state ≡ false
    → is_authenticated (close conn).state ≡ false
unfolding close
close-unready conn h = ground arith

send_over-unready :
    (reader : Option Bytes) (written : Result (Unit {0})) (conn : Connection)
    → is_authenticated conn.state ≡ false
    → is_authenticated (send_over reader written conn).0.state ≡ false
send_over-unready none written conn h = h
send_over-unready (some arriving) (ok u) conn h = h
send_over-unready (some arriving) (err cancelled_error) conn h = h
send_over-unready (some arriving) (err e) conn h = close-unready conn h

conn_after-unready :
    (encoded : Result Bytes) (written : Result (Unit {0})) (conn : Connection)
    → is_authenticated conn.state ≡ false
    → is_authenticated (conn_after encoded (send_frame written conn) conn).state ≡ false
unfolding send_frame
conn_after-unready (ok bytes) written conn h = send_over-unready conn.reader written conn h
conn_after-unready (err e) written conn h = h

module _ (mp : MsgPack) (v : Text) (ps : Primitives) where
  exchange-Failed :
      (opcode : ℕ) (body : Bytes) (metadata : Dict Text Value) (t : Traffic) (conn : Connection)
      (l : Link)
      → l.reading ≡ false
      → is_authenticated conn.state ≡ false
      → let p = exchange mp v opcode body metadata t conn l in
        Failed p.1 × (p.0.reading ≡ false) × (ready p.0.conn ≡ false)
  unfolding exchange next_stream_id
  exchange-Failed opcode body metadata t conn l h k =
      let c = next_stream_id conn in
      let encoded = encode mp v (request opcode body metadata c.1) in
      (
        rw h (encoded-Failed c.1 t.events (send_frame t.written c.0).1 encoded l.router),
        h,
        conn_after-unready encoded t.written c.0 k,
      )

  timed-Failed :
      (e : Raised) (c : Client) (p : Link × Result Frame)
      → c.running ≡ true
      → Failed p.1 × (p.0.reading ≡ false) × (ready p.0.conn ≡ false)
      → Failed (timed e (linked c p)).1 × IsIdle (timed e (linked c p)).0
  unfolding is_connected
  timed-Failed e c (l, response) r h = (timeout_as-Failed e response h.0, (h.1, h.2, r))

  exchange_on-Failed :
      (e : Raised) (opcode : ℕ) (body : Bytes) (metadata : Dict Text Value) (t : Traffic)
      (o : Option Connection) (c : Client)
      → IsIdle c
      → ready o ≡ false
      → let p = timed e (exchange_on o (exchange mp v opcode body metadata t) c) in
        Failed p.1 × IsIdle p.0
  exchange_on-Failed e opcode body metadata t none c h k =
      (timeout_as-Failed e (err attribute_error) tt, h)
  exchange_on-Failed e opcode body metadata t (some conn) c h k =
      timed-Failed e c (exchange mp v opcode body metadata t conn c.link) h.2
        (exchange-Failed opcode body metadata t conn c.link h.0 k)

  call-Fails :
      (e : Raised) (opcode : ℕ) (body : Bytes) (metadata : Dict Text Value) (t : Traffic)
      → Fails (call mp v ps e opcode body metadata t)
  unfolding call is_connected
  call-Fails e opcode body metadata t c h =
      exchange_on-Failed e opcode body metadata t c.link.conn c h h.1

  nonce_challenge-Fails :
      (timestamp : ℕ) (t : Traffic) → Fails (nonce_challenge mp v ps timestamp t)
  unfolding nonce_challenge
  nonce_challenge-Fails timestamp t =
      Fails-later current _ (λ c h. h)
        (λ c.
          Fails-later (lift _) _ (λ s h. h)
            (λ body.
              Fails-first (call mp v ps nonce_error OpCode.nonce_challenge_request body [] t) _
                (call-Fails nonce_error OpCode.nonce_challenge_request body [] t)))

  signed-Fails :
      (timestamp : ℕ) (t : Traffic) (key_time : ℕ) (c : Client) (signature : Text)
      → Fails (send_signed mp v ps timestamp t key_time c signature)
  signed-Fails timestamp t key_time c signature =
      Fails-later (lift (handshake_body c.config c.server_nonce timestamp signature)) _ (λ s h. h)
        (λ body.
          Fails-first
            (call mp v ps handshake_timeout_error OpCode.handshake_request body
              (handshake_metadata c.config) t)
            (finish_handshake mp v ps key_time)
            (call-Fails handshake_timeout_error OpCode.handshake_request body
              (handshake_metadata c.config) t))

  send_handshake-Fails :
      (timestamp : ℕ) (t : Traffic) (key_time : ℕ)
      → Fails (send_handshake_request mp v ps timestamp t key_time)
  unfolding send_handshake_request
  send_handshake-Fails timestamp t key_time c h =
      and_then-IsIdle (c, signature_of ps c.config c.server_nonce timestamp)
        (send_signed mp v ps timestamp t key_time c) h (signed-Fails timestamp t key_time c)

  state_set-IsIdle :
      (o : Option Connection) (c : Client) → IsIdle c → IsIdle (state_set authenticating o c).0
  unfolding is_connected
  state_set-IsIdle none c h = h
  state_set-IsIdle (some conn) c h = (h.0, refl, h.2)

  challenge-Keeps :
      (b : Bool) (timestamp : ℕ) (t : Traffic) → Keeps (challenge_if mp v ps b timestamp t)
  challenge-Keeps true timestamp t c h = (nonce_challenge-Fails timestamp t c h).1
  challenge-Keeps false timestamp t c h = h

  handshake-Fails : (m : Meeting) → Fails (handshake mp v ps m)
  unfolding handshake set_state
  handshake-Fails m =
      Fails-later (set_state authenticating) _ (λ c h. state_set-IsIdle c.link.conn c h)
        (λ set.
          Fails-later current _ (λ c h. h)
            (λ c.
              Fails-later
                (challenge_if mp v ps c.config.use_nonce_challenge m.nonce_time m.nonce_traffic) _
                (challenge-Keeps c.config.use_nonce_challenge m.nonce_time m.nonce_traffic)
                (λ challenged.
                  send_handshake-Fails m.handshake_time m.handshake_traffic m.key_time)))

  open_connection-IsIdle : (o : Result (Bytes × End)) → Keeps (open_connection o)
  unfolding open_connection is_connected Transport.connect
  open_connection-IsIdle (err e) c h = (h.0, refl, h.2)
  open_connection-IsIdle (ok (arriving, ends)) c h = (h.0, refl, h.2)

  establish_connection-Fails : (m : Meeting) → Fails (establish_connection mp v ps m)
  unfolding establish_connection
  establish_connection-Fails m =
      Fails-later (open_connection m.opened) _ (open_connection-IsIdle m.opened)
        (λ opened. Fails-first (handshake mp v ps m) _ (handshake-Fails m))

Failed-err : {A : Type 0} (r : Result A) → Failed r → (e : Raised) × (r ≡ err e)
Failed-err (ok a) h = absurd h
Failed-err (err e) h = (e, refl)

module _ (mp : MsgPack) (v : Text) (ps : Primitives) where
  started-Failed :
      (b : Bool) (m : Meeting) (c : Client)
      → b ≡ false
      → c.link.reading ≡ false
      → is_connected c ≡ false
      → Failed (connect_if mp v ps b m c).1 × IsIdle (connect_if mp v ps b m c).0
  unfolding is_connected
  started-Failed true m c e h k = absurd (cc)
  started-Failed false m c e h k =
      establish_connection-Fails mp v ps m (record c { running = true }) (h, k, refl)

  again : (b : Bool) (m : Meeting) (c : Client) → b ≡ true → connect_if mp v ps b m c ≡ (c, ok tt)
  again true m c e = refl
  again false m c e = absurd (cc)

module _ (mp : MsgPack) (v : Text) (ps : Primitives) (c : Client) (m m' : Meeting) where
  -- A client that was not started, of which no task reads frames, never connects: whatever the server
  -- sends and whatever the other tasks do, connecting raises. The client keeps that it was started: a
  -- second attempt returns at once without an error and changes nothing, and the client is still not
  -- connected. (The reconnecting that a closed connection starts is no part of this.)
  pub connect_raises :
      c.running ≡ false
      → c.link.reading ≡ false
      → is_connected c ≡ false
      → let first = connect mp v ps m c in
        ((e : Raised) × (first.1 ≡ err e))
        × (connect mp v ps m' first.0 ≡ (first.0, ok tt))
        × (is_connected first.0 ≡ false)
  unfolding connect
  connect_raises stopped unread unready =
      let (raised, (unread', unready', running)) =
        started-Failed mp v ps c.running m c stopped unread unready in
      (
        Failed-err (connect_if mp v ps c.running m c).1 raised,
        again mp v ps (connect_if mp v ps c.running m c).0.running m'
            (connect_if mp v ps c.running m c).0 running,
        unready',
      )
