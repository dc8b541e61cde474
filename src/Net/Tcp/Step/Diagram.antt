-- ===== src/Net/Tcp/Step/Diagram.antt =====
-- Whole segments keep to the diagram of the states.
use peos.Prelude.{
  ℕ, zero, suc, ◌≡◌, ◌≢◌, refl, subst, sym, ◌∙◌, Bool, true, false, not, ◌&&◌, Option, none, some,
  List, [], ◌∷◌, ◌++◌, ◌+◌, ltb, length, leb, if◌then◌else◌,
}
use peos.Prelude.Fault.{>>=-eq-some}
use peos.Support.Pool
use peos.Support.Queue
use peos.Net.Tcp.Definitions.{SegmentMetadata, ack, has_flag, set_flag}
use peos.Prelude.Int.{add32}
use peos.Net.Tcp.ReceiveQueue.{ReceiveQueue, RecvSegment}
use peos.Net.Tcp.ReceiveQueue
use peos.Net.Tcp.SendQueue.{SendQueue, SendSegment}
use peos.Net.Tcp.SendQueue
use peos.Net.Tcp.Env.{Env, State, SentSegment, listen, M, ◌>>=◌, ◌>>◌, pure, lift, get, put, modify}
use peos.Net.Tcp.Connection.{send, on_full_receive, is_phantom, datagram}
use peos.Net.Tcp.State.{early_recv, sequenced_recv, remote_consumed_all}
use peos.Net.Tcp.State.Machine.{
  Arrow, Holds, Moved, put-after, early_recv-Moved, sequenced_recv-Moved, remote_consumed_all-Moved,
}
use peos.Net.Tcp.Step.{
  receive_one, receive_loop, send_one, send_loop, acknowledge, take_ack, step, on_receive,
  buffer_size,
}

-- Arrows one after another.
pub data Path_ : State → State → Type 0 where
  here : (s : State) → Path_ s s
  further : {s t u : State} → Arrow s t → Path_ t u → Path_ s u

join : {s t u : State} → Path_ s t → Path_ t u → Path_ s u
join (here r) q = q
join (further a p) q = further a (join p q)

abbrev pub Reached : Env → ℕ → List ℕ → State → Type 0
Reached env' h free s = (s' : State) × Path_ s s' × Holds env' h free s'

stayed :
    (env' : Env) (h : ℕ) (free : List ℕ) (s : State) → Holds env' h free s → Reached env' h free s
stayed env' h free s v = (s, here s, v)

one_arrow :
    (env' : Env) (h : ℕ) (free : List ℕ) (s : State) → Moved env' h free s → Reached env' h free s
one_arrow env' h free s (t, a, v) = (t, further a (here t), v)

after :
    (env' : Env) (h : ℕ) (free : List ℕ) (s t : State)
    → Path_ s t
    → Reached env' h free t
    → Reached env' h free s
after env' h free s t p (u, q, v) = (u, join p q, v)

-- What an operation does to the connection in any environment.
abbrev Keeps : ℕ → M (Unit {0}) → Type 0
Keeps h m =
    (env env' : Env) (free : List ℕ) (s : State)
    → Holds env h free s
    → m env ≡ some (tt, env')
    → Reached env' h free s

then-Keeps : (h : ℕ) (m k : M (Unit {0})) → Keeps h m → Keeps h k → Keeps h (m >> k)
then-Keeps h m k p q env env' free s v e =
    let ((u, env₁), first, second) = >>=-eq-some (m env) (λ r. k r.1) e in
    let (t, path, w) = p env env₁ free s v (cc first) in
    after env' h free s t path (q env₁ env' free t w second)

idle-Keeps : (h : ℕ) → Keeps h (pure tt)
idle-Keeps h env env' free s v e = stayed env' h free s (subst (λ t. Holds t h free s) (cc e) v)

with_sent :
    (env : Env) (h : ℕ) (free : List ℕ) (s : State) (d : SentSegment)
    → Holds env h free s
    → Holds (record env { sent = env.sent ++ (d ∷ []) }) h free s
with_sent env h free s d v = record {
  inv = v.inv;
  conn = v.conn;
  found = v.found;
  in_state = v.in_state;
}

send-Keeps : (h flags seqnbr : ℕ) (bytes : List ℕ) → Keeps h (send h flags seqnbr bytes)
unfolding send get modify
send-Keeps h flags_ seqnbr bytes env env' free s v e =
    by_room
      (if is_phantom (set_flag flags_ ack) (length bytes)
        then some tt
        else (if ltb (length bytes + 20) 1500 then some tt else none))
      (rw v.found at e)
  where
    flags : ℕ
    flags = set_flag flags_ ack

    d : SentSegment
    d = datagram env v.conn flags seqnbr (if is_phantom flags (length bytes) then [] else bytes)

    by_room :
        (o : Option (Unit {0}))
        → ((lift o >>= λ _.
                modify (λ env. record env {
                  sent =
                      env.sent
                      ++ (datagram env v.conn flags seqnbr
                            (if is_phantom flags (length bytes) then [] else bytes)
                          ∷ []);
                })
                >> put h (record v.conn { next_outgoing_seqnbr = add32 seqnbr (length bytes) }))
              env
            ≡ some (tt, env'))
        → Reached env' h free s
    by_room none e = cc e
    by_room (some u) e = stayed env' h free s (
        subst (λ t. Holds env' h free t) v.in_state
          (put-after (record env { sent = env.sent ++ (d ∷ []) }) env' h free s
            (record v.conn { next_outgoing_seqnbr = add32 seqnbr (length bytes) })
            (with_sent env h free s d v) e))

module _ (callback : ℕ → List ℕ → M (Unit {0})) (h : ℕ)
    (callback-Moved : (bytes : List ℕ) (env env' : Env) (free : List ℕ) (s : State)
      → Holds env h free s
      → on_full_receive callback h bytes env ≡ some (tt, env')
      → Moved env' h free s) where
  receive_one-Keeps : Keeps h (receive_one callback h)
  unfolding receive_one get
  receive_one-Keeps env env' free s v e =
      by_read (ReceiveQueue.read_one_segment v.conn.rx_queue buffer_size) (rw v.found at e)
    where
      by_read :
          (o : Option (RecvSegment × List ℕ × ReceiveQueue))
          → ((lift o >>= λ r.
                  put h (record v.conn { rx_queue = r.2 })
                  >> sequenced_recv callback v.conn.state h r.0 r.1)
                env
              ≡ some (tt, env'))
          → Reached env' h free s
      by_read none e = cc e
      by_read (some (segment, bytes, rx)) e =
          let c = record v.conn { rx_queue = rx } in
          let ((u, env₁), first, second) =
            >>=-eq-some (put h c env)
              (λ r. sequenced_recv callback v.conn.state h segment bytes r.1) e in
          let w = put-after env env₁ h free s c v (cc first) in
          one_arrow env' h free s (
            subst (Moved env' h free) v.in_state (
              sequenced_recv-Moved callback v.conn.state env₁ env' h free segment bytes
                (λ e₁ k. callback-Moved bytes env₁ e₁ free v.conn.state w k) w second))

  receive_loop-Keeps : (fuel : ℕ) → Keeps h (receive_loop callback fuel h)
  unfolding receive_loop get
  receive_loop-Keeps zero env env' free s v e = cc e
  receive_loop-Keeps (suc fuel) env env' free s v e =
      by_readable (receive_loop-Keeps fuel) (ReceiveQueue.has_readable v.conn.rx_queue)
        (rw v.found at e)
    where
      by_readable :
          Keeps h (receive_loop callback fuel h)
          → (o : Option Bool)
          → ((lift o >>= λ readable.
                  if readable
                  then receive_one callback h >> receive_loop callback fuel h
                  else pure tt)
                env
              ≡ some (tt, env'))
          → Reached env' h free s
      by_readable k none e = cc e
      by_readable k (some true) e =
          then-Keeps h (receive_one callback h) (receive_loop callback fuel h) receive_one-Keeps k
            env env' free s v e
      by_readable k (some false) e = idle-Keeps h env env' free s v e

  send_one-Keeps : Keeps h (send_one callback h)
  unfolding send_one get
  send_one-Keeps env env' free s v e =
      by_read (SendQueue.read_one_segment v.conn.tx_queue buffer_size) (rw v.found at e)
    where
      by_seg :
          (env₁ : Env) (o : Option (SendSegment × List ℕ))
          → Holds env₁ h free v.conn.state
          → ((lift o >>= λ r. send h r.0.flags r.0.seqnbr r.1) env₁ ≡ some (tt, env'))
          → Reached env' h free v.conn.state
      by_seg env₁ none w e = cc e
      by_seg env₁ (some (seg, bytes)) w e =
          send-Keeps h seg.flags seg.seqnbr bytes env₁ env' free v.conn.state w e

      by_read :
          (o : Option (ℕ × Option (SendSegment × List ℕ) × SendQueue))
          → ((lift o >>= λ r.
                  put h (record v.conn { tx_queue = r.2 })
                  >> (lift r.1 >>= λ q. send h q.0.flags q.0.seqnbr q.1))
                env
              ≡ some (tt, env'))
          → Reached env' h free s
      by_read none e = cc e
      by_read (some (n, read, tx)) e =
          let c = record v.conn { tx_queue = tx } in
          let ((u, env₁), first, second) =
            >>=-eq-some (put h c env)
              (λ r. (lift read >>= λ q. send h q.0.flags q.0.seqnbr q.1) r.1) e in
          subst (Reached env' h free) v.in_state
            (by_seg env₁ read (put-after env env₁ h free s c v (cc first)) second)

  send_loop-Keeps : (fuel : ℕ) → Keeps h (send_loop callback fuel h)
  unfolding send_loop get
  send_loop-Keeps zero env env' free s v e = cc e
  send_loop-Keeps (suc fuel) env env' free s v e =
      by_readable (send_loop-Keeps fuel) (SendQueue.has_readable v.conn.tx_queue) (rw v.found at e)
    where
      by_readable :
          Keeps h (send_loop callback fuel h)
          → (o : Bool)
          → ((if o then send_one callback h >> send_loop callback fuel h else pure tt) env
              ≡ some (tt, env'))
          → Reached env' h free s
      by_readable k true e =
          then-Keeps h (send_one callback h) (send_loop callback fuel h) send_one-Keeps k env env'
            free s v e
      by_readable k false e = idle-Keeps h env env' free s v e

  acknowledge-Keeps : (received : Bool) → Keeps h (acknowledge callback h received)
  unfolding acknowledge get
  acknowledge-Keeps received env env' free s v e =
      by_need (received && not (SendQueue.has_readable v.conn.tx_queue)) (rw v.found at e)
    where
      by_need :
          (o : Bool)
          → ((if o then send h 0 v.conn.next_outgoing_seqnbr [] else pure tt) env ≡ some (tt, env'))
          → Reached env' h free s
      by_need true e = send-Keeps h 0 v.conn.next_outgoing_seqnbr [] env env' free s v e
      by_need false e = idle-Keeps h env env' free s v e

  send_rest : M (Unit {0})
  send_rest = get h >>= λ c. send_loop callback (suc (Queue.size c.tx_queue.segments)) h

  send_rest-Keeps : Keeps h send_rest
  unfolding send_rest get
  send_rest-Keeps env env' free s v e =
      send_loop-Keeps (suc (Queue.size v.conn.tx_queue.segments)) env env' free s v
        (rw v.found at e)

  step-Keeps : Keeps h (step callback h)
  unfolding step get send_rest
  step-Keeps env env' free s v e =
      by_readable (ReceiveQueue.has_readable v.conn.rx_queue) (rw v.found at e)
    where
      n : ℕ
      n = suc (Pool.size v.conn.rx_queue.segments)

      by_readable :
          (o : Option Bool)
          → ((lift o >>= λ received.
                  receive_loop callback n h >> (acknowledge callback h received >> send_rest))
                env
              ≡ some (tt, env'))
          → Reached env' h free s
      by_readable none e = cc e
      by_readable (some received) e =
          then-Keeps h (receive_loop callback n h) (acknowledge callback h received >> send_rest)
            (receive_loop-Keeps n)
            (then-Keeps h (acknowledge callback h received) send_rest (acknowledge-Keeps received)
              send_rest-Keeps)
            env env' free s v e

  take_ack-Keeps : (metadata : SegmentMetadata) → Keeps h (take_ack callback h metadata)
  unfolding take_ack get
  take_ack-Keeps metadata env env' free s v e =
      by_queue (SendQueue.ack v.conn.tx_queue metadata.tcp_header.ack_nbr) (rw v.found at e)
    where
      by_all :
          (env₁ : Env) (o : Bool)
          → Holds env₁ h free v.conn.state
          → ((if o then remote_consumed_all v.conn.state h else pure tt) env₁ ≡ some (tt, env'))
          → Reached env' h free v.conn.state
      by_all env₁ true w e =
          one_arrow env' h free v.conn.state
            (remote_consumed_all-Moved v.conn.state env₁ env' h free w e)
      by_all env₁ false w e = idle-Keeps h env₁ env' free v.conn.state w e

      by_queue :
          (o : Option SendQueue)
          → ((lift o >>= λ tx.
                  put h (record v.conn { tx_queue = tx })
                  >> (if leb tx.write_pos metadata.tcp_header.ack_nbr
                      then remote_consumed_all v.conn.state h
                      else pure tt))
                env
              ≡ some (tt, env'))
          → Reached env' h free s
      by_queue none e = cc e
      by_queue (some tx) e =
          let c = record v.conn { tx_queue = tx } in
          let ((u, env₁), first, second) =
            >>=-eq-some (put h c env)
              (λ r.
                (if leb tx.write_pos metadata.tcp_header.ack_nbr
                    then remote_consumed_all v.conn.state h
                    else pure tt)
                  r.1)
              e in
          subst (Reached env' h free) v.in_state (
            by_all env₁ (leb tx.write_pos metadata.tcp_header.ack_nbr)
              (put-after env env₁ h free s c v (cc first)) second)

  -- A segment given to a connection that does not listen takes it along arrows of the diagram only,
  -- whatever the segment and the queues are, where the call returns and the application's callback, for
  -- what it does with the connection, keeps to the diagram too.
  pub on_receive-Reached :
      (metadata : SegmentMetadata) (bytes : List ℕ) (env env' : Env) (free : List ℕ) (s : State)
      → s ≢ listen
      → Holds env h free s
      → on_receive callback h metadata bytes env ≡ some (tt, env')
      → Reached env' h free s
  unfolding on_receive get
  on_receive-Reached metadata bytes env env' free s n v e =
      let ((u, env₁), first, second) =
        >>=-eq-some (early_recv v.conn.state h metadata bytes env) (λ r. rest r.1)
          (rw v.found at e) in
      let (t, a, w) =
        early_recv-Moved v.conn.state env env₁ h free metadata bytes (λ k. n (sym v.in_state ∙ k))
          (record { inv = v.inv; conn = v.conn; found = v.found; in_state = refl }) (cc first) in
      subst (Reached env' h free) v.in_state (
        after env' h free v.conn.state t (further a (here t)) (
          then-Keeps h (by_ack (has_flag metadata.flags ack)) (step callback h)
            (by_ack-Keeps (has_flag metadata.flags ack)) step-Keeps env₁ env' free t w second))
    where
      by_ack : Bool → M (Unit {0})
      by_ack b = if b then take_ack callback h metadata else pure tt

      rest : M (Unit {0})
      rest = by_ack (has_flag metadata.flags ack) >> step callback h

      by_ack-Keeps : (b : Bool) → Keeps h (by_ack b)
      by_ack-Keeps true = take_ack-Keeps metadata
      by_ack-Keeps false = idle-Keeps h
