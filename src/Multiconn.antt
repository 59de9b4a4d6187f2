-- ===== src/Multiconn.antt =====
-- multiconn.h and multiconn.cpp: up to 256 virtual connections over one socket. A frame is the
-- connection's number, the size of its data in two bytes, and the data, which the virtual connection
-- reads or writes itself. `vconn` and `is_queued` are functions of the number.
pub mod Frame
pub mod Queue
pub mod Steps
use gnyproxy.Prelude.{
  ℕ, zero, suc, ◌+◌, ◌-◌, ◌*◌, ◌/◌, ◌%◌, ◌^◌, min, Bool, true, false, ◌&&◌, ◌||◌, not, List, [],
  ◌∷◌, ◌++◌, Option, none, some, leb, ltb, ◌==◌, if◌then◌else◌, Bytes, length, drop, take,
}
use gnyproxy.Prelude.Int.{ℤ, pos, negsuc}
use gnyproxy.Socket.{Received, received, failed}

abbrev pub multiconn_max_id : ℕ
multiconn_max_id = 255

abbrev pub multiconn_max_sz : ℕ
multiconn_max_sz = 65536

-- The class Connection of connection.h, what `conn_creator(init_data)` makes, and what the calls of
-- a virtual connection return. A call may change the connection.
pub record Virtual : Type 1 where
  pub Conn : Type 0
  pub created : Conn
  pub write_size : Conn → ℕ × Conn
  pub read : Conn → ℕ → ℤ × Conn
  pub write : Conn → ℕ → ℤ × Conn

-- The calls on the socket within one call of `read` or of `write`: for the number and for the
-- size, what comes or goes, and what `can_read` or `can_write` says behind each.
pub record Calls : Type 0 where
  pub recv_id : Received
  pub recv_sz : ℕ → Received
  pub send_id : ℕ → ℤ
  pub send_sz : Bytes → ℤ
  pub can_first : Bool
  pub can_second : Bool

pub record Multiconn (V : Virtual) : Type 0 where
  pub r_id : ℕ
  pub r_sz : ℕ
  pub r_state : ℕ
  pub w_id : ℕ
  pub w_sz : ℕ
  pub w_state : ℕ
  pub w_queue : List ℕ
  pub vconn : ℕ → Option V.Conn
  pub is_queued : ℕ → Bool

-- An element of an array is set.
abbrev pub put {ℓ} : {A : Type ℓ} → (ℕ → A) → ℕ → A → ℕ → A
put f i a j = if j == i then a else f j

module _ (V : Virtual) where
  -- The constructor.
  unfoldable pub create : Multiconn V
  create = record {
    r_id = 0;
    r_sz = 0;
    r_state = 0;
    w_id = 0;
    w_sz = 0;
    w_state = 0;
    w_queue = [];
    vconn = λ _. none;
    is_queued = λ _. false;
  }

  -- The connection with this number, which is made if it is not there.
  unfoldable pub get_virtual_connection : Multiconn V → ℕ → V.Conn
  get_virtual_connection m id = elim (m.vconn id) [ none ↦ V.created | some c ↦ c ]

  -- `get_virtual_connection(id)->get_write_size()`.
  unfoldable pub size_of : Multiconn V → ℕ → ℕ × Multiconn V
  unfolding get_virtual_connection
  size_of m id =
      let (size, c) = V.write_size (get_virtual_connection m id) in
      (size, record m { vconn = put m.vconn id (some c) })

  -- `is_queued[id] = true; w_queue.push(id)`.
  unfoldable pub enqueue : Multiconn V → ℕ → Multiconn V
  enqueue m id = record m { w_queue = m.w_queue ++ id ∷ []; is_queued = put m.is_queued id true }

  -- A connection that has something to write is queued, unless it is already.
  unfoldable pub enqueue_ready : Multiconn V → ℕ → Multiconn V
  unfolding size_of enqueue
  enqueue_ready m id =
      if m.is_queued id
      then m
      else (let (size, n) = size_of m id in if size == 0 then n else enqueue n id)

  -- The frame to write next: `w_sz` is 0 until one is taken from the queue.
  unfoldable pub next_frame : Multiconn V → Multiconn V
  unfolding size_of
  next_frame m = elim m.w_queue [
    | [] ↦ m
    | id ∷ queue ↦
        let (size, n) = size_of (record m { w_queue = queue }) id in
        record n { w_id = id; w_sz = min multiconn_max_sz size; w_state = 0 }
  ]

  unfoldable pub get_write_size : Multiconn V → ℕ × Multiconn V
  unfolding next_frame
  get_write_size m =
      let n = if m.w_sz == 0 then next_frame m else m in
      (if n.w_sz == 0 then 0 else n.w_sz + 3 - n.w_state, n)

  -- `r_sz` when the second byte of the size has come: `r_sz` holds the first one in its lowest byte.
  unfoldable pub full_size : ℕ → ℕ
  full_size r_sz = if r_sz == 0 then multiconn_max_sz else r_sz % 256 * 256 + r_sz / 256 % 256

  -- The bytes of the size, as they stand in `r_sz` from the byte `at` on.
  unfoldable pub store : ℕ → ℕ → Bytes → ℕ
  store r_sz at [] = r_sz
  store r_sz at (b ∷ bytes) = store (r_sz + b * 256 ^ at) (suc at) bytes

  -- `read` behind the head of the frame.
  unfoldable pub read_data : Multiconn V → ℕ → ℕ → ℤ × Multiconn V
  unfolding enqueue_ready
  read_data m before max_read =
      let (result, c) = V.read (get_virtual_connection m m.r_id) (min m.r_sz max_read) in
      let n = record m { vconn = put m.vconn m.r_id (some c) } in
      elim result [
        | negsuc e ↦ (negsuc e, n)
        | pos zero ↦ (pos 0, n)
        | pos (suc amt) ↦
            let left = (n.r_sz + 2 ^ 64 - suc amt) % 2 ^ 64 in
            let q = enqueue_ready (record n { r_sz = left }) n.r_id in
            (
              pos (suc amt + before),
              if left == 0 then record q { r_id = 0; r_sz = 0; r_state = 0 } else q,
            )
      ]

  -- `read` behind the number of the connection: the size, if it is not there in full.
  unfoldable pub read_size : Calls → Multiconn V → ℕ → ℕ → ℤ × Multiconn V
  unfolding read_data store full_size
  read_size s m before max_read = elim (ltb m.r_state 3) [
    | false ↦ read_data m before max_read
    | true ↦ elim (s.recv_sz (min max_read (3 - m.r_state))) [
      | failed ↦ (negsuc 0, m)
      | received [] ↦ (pos 0, m)
      | received (b ∷ bytes) ↦
          let amt = length (b ∷ bytes) in
          let stored = store m.r_sz (m.r_state - 1) (b ∷ bytes) in
          let n = record m {
            r_state = m.r_state + amt;
            r_sz = if m.r_state + amt == 3 then full_size stored else stored;
          } in
          if max_read - amt == 0 || not s.can_second
          then (pos (before + amt), n)
          else read_data n (before + amt) (max_read - amt)
    ]
  ]

  unfoldable pub read : Calls → Multiconn V → ℕ → ℤ × Multiconn V
  unfolding read_size
  read s m max_read = elim (m.r_state == 0) [
    | false ↦ read_size s m 0 max_read
    | true ↦ elim s.recv_id [
      | failed ↦ (negsuc 0, m)
      | received [] ↦ (pos 0, m)
      | received (id ∷ more) ↦
          let n = record m { r_id = id; r_state = 1 } in
          let left = (max_read + 2 ^ 64 - 1) % 2 ^ 64 in
          if left == 0 || not s.can_first then (pos 1, n) else read_size s n 1 left
    ]
  ]

  -- The end of a frame: the connection goes to the back of the queue if it has more to write.
  unfoldable pub end_frame : Multiconn V → Multiconn V
  unfolding size_of
  end_frame m =
      let (size, n) = size_of m m.w_id in
      let cleared = record n { w_id = 0; w_sz = 0; w_state = 0 } in
      if size == 0
      then record cleared { is_queued = put m.is_queued m.w_id false }
      else record cleared { w_queue = m.w_queue ++ m.w_id ∷ [] }

  -- `write` behind the head of the frame.
  unfoldable pub write_data : Multiconn V → ℕ → ℕ → ℤ × Multiconn V
  unfolding end_frame
  write_data m wrote max_write =
      let (result, c) = V.write (get_virtual_connection m m.w_id) (min m.w_sz max_write) in
      let n = record m { vconn = put m.vconn m.w_id (some c) } in
      elim result [
        | negsuc e ↦ (negsuc e, n)
        | pos zero ↦ (pos 0, n)
        | pos (suc amt) ↦
            let left = (n.w_sz + 2 ^ 64 - suc amt) % 2 ^ 64 in
            let q = record n { w_sz = left } in
            (pos (wrote + suc amt), if left == 0 then end_frame q else q)
      ]

  -- The two bytes of the size, of which 0 stands for 65536.
  unfoldable pub size_bytes : ℕ → Bytes
  size_bytes w_sz =
      if w_sz == multiconn_max_sz then 0 ∷ 0 ∷ [] else (w_sz / 256 % 256) ∷ (w_sz % 256) ∷ []

  -- `write` behind the number of the connection: the size, if it is not out in full.
  unfoldable pub write_head : Calls → Multiconn V → ℕ → ℕ → ℤ × Multiconn V
  unfolding write_data size_bytes
  write_head s m wrote max_write = elim (ltb m.w_state 3) [
    | false ↦ write_data m wrote max_write
    | true ↦
        elim (s.send_sz
          (take (min max_write (3 - m.w_state)) (drop (m.w_state - 1) (size_bytes m.w_sz)))) [
            | negsuc e ↦ (negsuc e, m)
            | pos zero ↦ (pos 0, m)
            | pos (suc amt) ↦
                let n = record m { w_state = m.w_state + suc amt } in
                if max_write - suc amt == 0 || not s.can_second
                then (pos (wrote + suc amt), n)
                else write_data n (wrote + suc amt) (max_write - suc amt)
          ]
  ]

  unfoldable pub write : Calls → Multiconn V → ℕ → ℤ × Multiconn V
  unfolding write_head
  write s m max_write = elim (m.w_sz == 0) [
    | true ↦ (negsuc 0, m)
    | false ↦ elim (m.w_state == 0) [
      | false ↦ write_head s m 0 max_write
      | true ↦ elim (s.send_id m.w_id) [
        | negsuc e ↦ (negsuc e, m)
        | pos zero ↦ (pos 0, m)
        | pos (suc amt) ↦
            let n = record m { w_state = suc amt } in
            let left = (max_write + 2 ^ 64 - suc amt) % 2 ^ 64 in
            if left == 0 || not s.can_first
            then (pos (suc amt), n)
            else write_head s n (suc amt) left
      ]
    ]
  ]

  -- The loop of `add_virtual_connection` and `create_virtual_connection` from `i` on, with `left`
  -- numbers to try: the first free one is taken.
  unfoldable pub add_from : ℕ → ℕ → Multiconn V → V.Conn → Bool × Multiconn V
  unfolding size_of enqueue
  add_from zero i m vc = (false, m)
  add_from (suc left) i m vc =
      let later = add_from left (suc i) m vc in
      elim (m.vconn i) [
        | some c ↦ later
        | none ↦
            let (size, n) = size_of (record m { vconn = put m.vconn i (some vc) }) i in
            (true, if size == 0 then n else enqueue n i)
      ]

  unfoldable pub add_virtual_connection : Multiconn V → V.Conn → Bool × Multiconn V
  unfolding add_from
  add_virtual_connection m vc = add_from (multiconn_max_id + 1) 0 m vc

  -- `made` is what `conn_creator(data)` makes where a number is free.
  unfoldable pub create_virtual_connection : Multiconn V → V.Conn → Bool × Multiconn V
  unfolding add_from
  create_virtual_connection m made = add_from (multiconn_max_id + 1) 0 m made

  -- The loop of `update` from `i` on.
  unfoldable pub update_from : ℕ → ℕ → Multiconn V → Multiconn V
  unfolding enqueue_ready
  update_from zero i m = m
  update_from (suc left) i m =
      update_from left (suc i) (elim (m.vconn i) [ none ↦ m | some c ↦ enqueue_ready m i ])

  unfoldable pub update : Multiconn V → Multiconn V
  unfolding update_from
  update m = update_from (multiconn_max_id + 1) 0 m
