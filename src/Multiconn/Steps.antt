-- ===== src/Multiconn/Steps.antt =====
-- Every operation of a multiplexed connection keeps its queue sound.
use gnyproxy.Prelude.{
  ℕ, zero, suc, ◌+◌, ◌-◌, ◌%◌, ◌^◌, ◌≡◌, refl, Bool, true, false, ◌||◌, not, ◌∷◌, arith, ◌==◌, ltb,
  Bool-cases, inl, inr, Option, none, some, Option-cases, min, take, drop, length,
}
use gnyproxy.Socket.{Received-cases}
use gnyproxy.Multiconn.{
  Virtual, Calls, Multiconn, put, create, size_of, get_write_size, get_virtual_connection,
  size_bytes, read_data, read_size, read, write_data, write_head, write, add_from,
  add_virtual_connection, create_virtual_connection, update_from, update,
}
use gnyproxy.Multiconn.Queue.{
  IsSound, put-IsSound, enqueue-IsSound, enqueue_ready-IsSound, get_write_size-IsSound,
  end_frame-IsSound, ℤ-cases, Turn-of, HasConn,
}

unqueued {ℓ} : {A : Type ℓ} (b : Bool) (o : Option A) → HasConn b o → o ≡ none → b ≡ false
unqueued true none h e = absurd h
unqueued true (some c) h e = absurd (cc)
unqueued false o h e = refl

module _ {V : Virtual} where
  -- The fields of the reader do not matter.
  r_fields-IsSound :
      (m : Multiconn V) (a b c : ℕ)
      → IsSound m
      → IsSound (record m { r_id = a; r_sz = b; r_state = c })
  r_fields-IsSound m a b c h = record {
    distinct = h.distinct;
    marked = h.marked;
    turn = h.turn;
    there = h.there;
  }

  -- A frame of which something is left to write, in part or not at all.
  w_fields-IsSound :
      (m : Multiconn V) (size a b : ℕ)
      → IsSound (record m { w_sz = suc size })
      → IsSound (record m { w_sz = a; w_state = b })
  w_fields-IsSound m size a b h = record {
    distinct = h.distinct;
    marked = h.marked;
    turn = Turn-of a m.w_id m.is_queued m.w_queue h.turn.0 h.turn.1;
    there = h.there;
  }

  read_data-IsSound :
      (m : Multiconn V) (before max : ℕ) → IsSound m → IsSound (read_data V m before max).1
  unfolding read_data
  read_data-IsSound m before max h =
      let call = V.read (get_virtual_connection V m m.r_id) (min m.r_sz max) in
      let n = record m { vconn = put m.vconn m.r_id (some call.1) } in
      let sound = put-IsSound m m.r_id call.1 h in
      elim (ℤ-cases call.0) [
        | inl (e, r) ↦ rw (read_data, r) sound
        | inr (inl r) ↦ rw (read_data, r) sound
        | inr (inr (amt, r)) ↦
            let left = (m.r_sz + 2 ^ 64 - suc amt) % 2 ^ 64 in
            let q =
              enqueue_ready-IsSound (record n { r_sz = left }) m.r_id
                (r_fields-IsSound n m.r_id left m.r_state sound) in
            elim (Bool-cases (left == 0)) [
              | inl z ↦ rw (read_data, r, z) (r_fields-IsSound _ 0 0 0 q)
              | inr z ↦ rw (read_data, r, z) q
            ]
      ]

  read_size-IsSound :
      (s : Calls) (m : Multiconn V) (before max : ℕ)
      → IsSound m
      → IsSound (read_size V s m before max).1
  unfolding read_size
  read_size-IsSound s m before max h = elim (Bool-cases (ltb m.r_state 3)) [
    | inr f ↦ rw (read_size, f) (read_data-IsSound m before max h)
    | inl t ↦ elim (Received-cases (s.recv_sz (min max (3 - m.r_state)))) [
      | inl r ↦ rw (read_size, t, r) h
      | inr (inl r) ↦ rw (read_size, t, r) h
      | inr (inr (b, bytes, r)) ↦
          let amt = length (b ∷ bytes) in
          let n = r_fields-IsSound m m.r_id _ (m.r_state + amt) h in
          elim (Bool-cases (max - amt == 0 || not s.can_second)) [
            | inl stop ↦ rw (read_size, t, r, stop) n
            | inr more ↦ rw (read_size, t, r, more) (read_data-IsSound _ _ _ n)
          ]
    ]
  ]

  read-IsSound : (s : Calls) (m : Multiconn V) (max : ℕ) → IsSound m → IsSound (read V s m max).1
  unfolding read
  read-IsSound s m max h = elim (Bool-cases (m.r_state == 0)) [
    | inr f ↦ rw (read, f) (read_size-IsSound s m 0 max h)
    | inl t ↦ elim (Received-cases s.recv_id) [
      | inl r ↦ rw (read, t, r) h
      | inr (inl r) ↦ rw (read, t, r) h
      | inr (inr (id, more, r)) ↦
          let n = r_fields-IsSound m id m.r_sz 1 h in
          elim (Bool-cases ((max + 2 ^ 64 - 1) % 2 ^ 64 == 0 || not s.can_first)) [
            | inl stop ↦ rw (read, t, r, stop) n
            | inr on ↦ rw (read, t, r, on) (read_size-IsSound s _ 1 _ n)
          ]
    ]
  ]

  write_data-IsSound :
      (m : Multiconn V) (size wrote max : ℕ)
      → IsSound (record m { w_sz = suc size })
      → IsSound (write_data V (record m { w_sz = suc size }) wrote max).1
  unfolding write_data
  write_data-IsSound m size wrote max h =
      let call =
        V.write (get_virtual_connection V (record m { w_sz = suc size }) m.w_id)
          (min (suc size) max) in
      let n = record m { w_sz = suc size; vconn = put m.vconn m.w_id (some call.1) } in
      let sound = put-IsSound (record m { w_sz = suc size }) m.w_id call.1 h in
      elim (ℤ-cases call.0) [
        | inl (e, r) ↦ rw (write_data, r) sound
        | inr (inl r) ↦ rw (write_data, r) sound
        | inr (inr (amt, r)) ↦
            let left = (suc size + 2 ^ 64 - suc amt) % 2 ^ 64 in
            elim (Bool-cases (left == 0)) [
              | inl z ↦
                  rw (write_data, r, z) (end_frame-IsSound (record n { w_sz = left }) size sound)
              | inr z ↦ rw (write_data, r, z) (w_fields-IsSound n size left m.w_state sound)
            ]
      ]

  write_head-IsSound :
      (s : Calls) (m : Multiconn V) (size wrote max : ℕ)
      → IsSound (record m { w_sz = suc size })
      → IsSound (write_head V s (record m { w_sz = suc size }) wrote max).1
  unfolding write_head
  write_head-IsSound s m size wrote max h = elim (Bool-cases (ltb m.w_state 3)) [
    | inr f ↦ rw (write_head, f) (write_data-IsSound m size wrote max h)
    | inl t ↦
        elim (ℤ-cases (
          s.send_sz
            (take (min max (3 - m.w_state)) (drop (m.w_state - 1) (size_bytes V (suc size)))))) [
              | inl (e, r) ↦ rw (write_head, t, r) h
              | inr (inl r) ↦ rw (write_head, t, r) h
              | inr (inr (amt, r)) ↦
                  let n = w_fields-IsSound m size (suc size) (m.w_state + suc amt) h in
                  elim (Bool-cases (max - suc amt == 0 || not s.can_second)) [
                    | inl stop ↦ rw (write_head, t, r, stop) n
                    | inr more ↦
                        rw (write_head, t, r, more)
                          (write_data-IsSound (record m { w_state = m.w_state + suc amt }) size _ _
                            n)
                  ]
            ]
  ]

  write_some-IsSound :
      (s : Calls) (m : Multiconn V) (size max : ℕ)
      → IsSound (record m { w_sz = suc size })
      → IsSound (write V s (record m { w_sz = suc size }) max).1
  unfolding write
  write_some-IsSound s m size max h =
      let busy : (suc size == 0) ≡ false = ground arith in
      elim (Bool-cases (m.w_state == 0)) [
        | inr f ↦ rw (write, busy, f) (write_head-IsSound s m size 0 max h)
        | inl t ↦ elim (ℤ-cases (s.send_id m.w_id)) [
          | inl (e, r) ↦ rw (write, busy, t, r) h
          | inr (inl r) ↦ rw (write, busy, t, r) h
          | inr (inr (amt, r)) ↦
              let n = w_fields-IsSound m size (suc size) (suc amt) h in
              elim (Bool-cases ((max + 2 ^ 64 - suc amt) % 2 ^ 64 == 0 || not s.can_first)) [
                | inl stop ↦ rw (write, busy, t, r, stop) n
                | inr on ↦
                    rw (write, busy, t, r, on)
                      (write_head-IsSound s (record m { w_state = suc amt }) size _ _ n)
              ]
        ]
      ]

  write-IsSound : (s : Calls) (m : Multiconn V) (max : ℕ) → IsSound m → IsSound (write V s m max).1
  unfolding write
  write-IsSound s m max h = by_size m.w_sz h
    where
      by_size :
          (size : ℕ)
          → IsSound (record m { w_sz = size })
          → IsSound (write V s (record m { w_sz = size }) max).1
      by_size zero h = h
      by_size (suc size) h = write_some-IsSound s m size max h

  add_from-IsSound :
      (left i : ℕ) (m : Multiconn V) (vc : V.Conn) → IsSound m → IsSound (add_from V left i m vc).1
  unfolding add_from size_of
  add_from-IsSound zero i m vc h = h
  add_from-IsSound (suc left) i m vc h = elim (Option-cases (m.vconn i)) [
    | inr (c, e) ↦ rw (add_from, e) (add_from-IsSound left (suc i) m vc h)
    | inl e ↦
        let made = put-IsSound m i vc h in
        elim (Bool-cases ((size_of V (record m { vconn = put m.vconn i (some vc) }) i).0 == 0)) [
          | inl z ↦ rw (add_from, e, z) (put-IsSound _ i _ made)
          | inr z ↦
              rw (add_from, e, z)
                (enqueue-IsSound (record m { vconn = put m.vconn i (some vc) }) i _ made
                  (unqueued (m.is_queued i) (m.vconn i) (h.there i) e))
        ]
  ]

  update_from-IsSound :
      (left i : ℕ) (m : Multiconn V) → IsSound m → IsSound (update_from V left i m)
  unfolding update_from
  update_from-IsSound zero i m h = h
  update_from-IsSound (suc left) i m h = elim (Option-cases (m.vconn i)) [
    | inl e ↦ rw e (update_from-IsSound left (suc i) m h)
    | inr (c, e) ↦ rw e (update_from-IsSound left (suc i) _ (enqueue_ready-IsSound m i h))
  ]

  create-IsSound : IsSound (create V)
  unfolding create
  create-IsSound = record { distinct = tt; marked = tt; turn = tt; there = λ id. tt }

  add_virtual_connection-IsSound :
      (m : Multiconn V) (vc : V.Conn) → IsSound m → IsSound (add_virtual_connection V m vc).1
  unfolding add_virtual_connection
  add_virtual_connection-IsSound m vc h = add_from-IsSound 256 0 m vc h

  create_virtual_connection-IsSound :
      (m : Multiconn V) (made : V.Conn) → IsSound m → IsSound (create_virtual_connection V m made).1
  unfolding create_virtual_connection
  create_virtual_connection-IsSound m made h = add_from-IsSound 256 0 m made h

  update-IsSound : (m : Multiconn V) → IsSound m → IsSound (update V m)
  unfolding update
  update-IsSound m h = update_from-IsSound 256 0 m h

  -- The states that the calls of a multiplexed connection lead to, in any order.
  pub data Reached : Multiconn V → Type 0 where
    creates : Reached (create V)
    sizes : (m : Multiconn V) → Reached m → Reached (get_write_size V m).1
    reads :
        (s : Calls) (m : Multiconn V) (max_read : ℕ) → Reached m → Reached (read V s m max_read).1
    writes :
        (s : Calls) (m : Multiconn V) (max_write : ℕ)
        → Reached m
        → Reached (write V s m max_write).1
    adds : (m : Multiconn V) (vc : V.Conn) → Reached m → Reached (add_virtual_connection V m vc).1
    makes :
        (m : Multiconn V) (made : V.Conn)
        → Reached m
        → Reached (create_virtual_connection V m made).1
    updates : (m : Multiconn V) → Reached m → Reached (update V m)

  -- Whatever calls are made, in whatever order and with whatever outcomes on the socket: no virtual
  -- connection waits twice, each one that waits is marked and is there, and the one whose frame is being
  -- written is marked and does not wait.
  pub Reached-IsSound : (m : Multiconn V) → Reached m → IsSound m
  Reached-IsSound m creates = create-IsSound
  Reached-IsSound m (sizes n r) = get_write_size-IsSound n (Reached-IsSound n r)
  Reached-IsSound m (reads s n max r) = read-IsSound s n max (Reached-IsSound n r)
  Reached-IsSound m (writes s n max r) = write-IsSound s n max (Reached-IsSound n r)
  Reached-IsSound m (adds n vc r) = add_virtual_connection-IsSound n vc (Reached-IsSound n r)
  Reached-IsSound m (makes n made r) =
      create_virtual_connection-IsSound n made (Reached-IsSound n r)
  Reached-IsSound m (updates n r) = update-IsSound n (Reached-IsSound n r)
