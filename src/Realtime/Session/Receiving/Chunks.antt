-- ===== src/Realtime/Session/Receiving/Chunks.antt =====
-- How the stream is cut into chunks does not matter to the frames that come out of it.
use sync_rtc.Prelude.{
  ℕ, zero, suc, ◌≤◌, ◌<◌, ◌≡◌, refl, sym, ap, ◌∙◌, inl, inr, Bool, true, false, ◌∷◌, ◌++◌, length,
  length-append, length-drop, take, drop, take-append_le, drop-append_le, append_assoc, ltb, leb,
  ◌==◌, Bool-cases, Bytes, arith, if◌then◌else◌,
}
use mathlib.Core.Bool.{false≢true}
use sync_rtc.Wire.{read16}
use sync_rtc.Realtime.Session.{Session, is_closed, request_close}
use sync_rtc.Realtime.Session.Heartbeats.{handle_heartbeat}
use sync_rtc.Realtime.Session.Heartbeats.Limits.{closed-request_close}
use sync_rtc.Realtime.Session.Receiving.{
  Env, Frame, with_buffer, first_internal_id, heartbeat_request, handle_frame, parse_front,
  parse_loop, parse_frames, feed, post_frame, continue, continue_open, beat,
}
use sync_rtc.Realtime.Session.Receiving.Buffer.{
  request_close-with_buffer, handle_heartbeat-with_buffer,
}

module _ (env : Env) where
  open env use {Logic, read_clock, read_json}

  abbrev pub Loop : Type 0
  Loop = Session → Logic → Session × Logic

  abbrev Agree : Loop → Loop → Bytes → Type 0
  Agree f g b = (t : Session) (l : Logic) → t.receive_buffer ≡ b → f t l ≡ g t l

  buffer-handle_heartbeat :
      (now : ℕ) (p : Bytes) (s : Session)
      → (handle_heartbeat read_json now p s).receive_buffer ≡ s.receive_buffer
  buffer-handle_heartbeat now p s =
      ap (λ (t : Session). t.receive_buffer)
        (handle_heartbeat-with_buffer s.receive_buffer read_json now p s)

  continue-Agree :
      (f g : Loop) (frame : Frame) (s : Session) (l : Logic)
      → Agree f g s.receive_buffer
      → continue env f (post_frame env frame s l) ≡ continue env g (post_frame env frame s l)
  continue-Agree f g frame s l h = elim (Bool-cases (env.post frame l).1) [
    | inl t ↦ rw t (h s _ refl)
    | inr t ↦ rw t (
        h (request_close s) _
          (ap (λ (u : Session). u.receive_buffer) (request_close-with_buffer s.receive_buffer s)))
  ]

  handle_frame-Agree :
      (f g : Loop) (id : ℕ) (body : Bytes) (s : Session) (l : Logic)
      → Agree f g s.receive_buffer
      → handle_frame env id body s l f ≡ handle_frame env id body s l g
  unfolding handle_frame
  handle_frame-Agree f g id body s l h =
      let now = (read_clock l).1 in
      elim (Bool-cases (id == heartbeat_request)) [
        | inl t ↦ rw t (
            ground (
              arith,
              h (handle_heartbeat read_json now body s) (read_clock l).0
                  (buffer-handle_heartbeat now body s),
            ))
        | inr t ↦ rw t (continue-Agree f g _ s l h)
      ]

  parse_front_agree :
      (f g : Loop) (q : Bytes) (s : Session) (l : Logic)
      → ((t : Session) (l : Logic) → length t.receive_buffer < length q → f t l ≡ g t l)
      → parse_front env q s l f ≡ parse_front env q s l g
  unfolding parse_front
  parse_front_agree f g (b₀ ∷ (b₁ ∷ (b₂ ∷ (b₃ ∷ body)))) s l h =
      let n = read16 b₂ b₃ in
      ground (
        arith,
        handle_frame-Agree f g (read16 b₀ b₁) (take n body) (with_buffer (drop n body) s) l
            (λ t l' e. h t l' (omega (arith, ap (λ (x : Bytes). length x) e, length-drop n body))),
      )
  parse_front_agree f g _ s l h = refl

  -- Fuel above the length of the buffer makes no difference.
  pub parse_loop_fuel :
      (m n : ℕ) (s : Session) (l : Logic)
      → length s.receive_buffer < m
      → length s.receive_buffer < n
      → parse_loop env m s l ≡ parse_loop env n s l
  unfolding parse_loop
  parse_loop_fuel zero n s l h k = absurd (omega arith)
  parse_loop_fuel (suc m) zero s l h k = absurd (omega arith)
  parse_loop_fuel (suc m) (suc n) s l h k =
      parse_front_agree (parse_loop env m) (parse_loop env n) s.receive_buffer s l
        λ t l' lt. parse_loop_fuel m n t l' (omega arith) (omega arith)

  abbrev pub extend : Bytes → Session → Session
  extend y s = with_buffer (s.receive_buffer ++ y) s

  -- After `again`, further bytes do as they do before it.
  abbrev Resumes : Bytes → Loop → Session → Logic → Type 0
  Resumes y again s l =
      is_closed (again s l).0 ≡ false
      → parse_frames env (extend y (again s l).0) (again s l).1 ≡ parse_frames env (extend y s) l

  pub parse_frames_fuel :
      (k : ℕ) (s : Session) (l : Logic)
      → length s.receive_buffer < k
      → parse_loop env k s l ≡ parse_frames env s l
  unfolding parse_frames
  parse_frames_fuel k s l h = parse_loop_fuel k (suc (length s.receive_buffer)) s l h (omega arith)

  module _ (y : Bytes) (again : Loop) (k : ℕ) where
    open_case :
        (shut : Bool) (t : Session) (l : Logic)
        → is_closed t ≡ shut
        → length (t.receive_buffer ++ y) < k
        → Resumes y again t l
        → let r : Session × Logic = if shut then (t, l) else again t l in
          is_closed r.0 ≡ false
          → parse_frames env (extend y r.0) r.1
            ≡ (if shut then (extend y t, l) else parse_loop env k (extend y t) l)
    open_case true t l e h ih c = absurd (false≢true (sym c ∙ e))
    open_case false t l e h ih c = ih c ∙ sym (parse_frames_fuel k (extend y t) l h)

    taken_case :
        (taken : Bool) (s : Session) (l : Logic)
        → length (s.receive_buffer ++ y) < k
        → ((t : Session) (l : Logic) → t.receive_buffer ≡ s.receive_buffer → Resumes y again t l)
        → let r = again (if taken then s else request_close s) l in
          is_closed r.0 ≡ false
          → parse_frames env (extend y r.0) r.1
            ≡ parse_loop env k (if taken then extend y s else request_close (extend y s)) l
    unfolding request_close
    taken_case true s l h ih c = ih s l refl c ∙ sym (parse_frames_fuel k (extend y s) l h)
    taken_case false s l h ih c =
        ih (request_close s) l refl c ∙ sym (parse_frames_fuel k (extend y (request_close s)) l h)

    heartbeat-Resumes :
        (now : ℕ) (body : Bytes) (s : Session) (l : Logic)
        → length (s.receive_buffer ++ y) < k
        → ((t : Session) (l : Logic) → t.receive_buffer ≡ s.receive_buffer → Resumes y again t l)
        → let r = continue_open env again (handle_heartbeat read_json now body s) l in
          is_closed r.0 ≡ false
          → parse_frames env (extend y r.0) r.1
            ≡ continue_open env
                (parse_loop env k)
                (handle_heartbeat read_json now body (extend y s))
                l
    heartbeat-Resumes now body s l h ih c =
        let t = handle_heartbeat read_json now body s in
        let same = buffer-handle_heartbeat now body s in
        let moved : handle_heartbeat read_json now body (extend y s) ≡ extend y t =
          handle_heartbeat-with_buffer (s.receive_buffer ++ y) read_json now body s
          ∙ ap (λ b. with_buffer (b ++ y) t) (sym same) in
        open_case (is_closed t) t l refl (omega (arith, ap (λ (b : Bytes). length (b ++ y)) same))
          (ih t l same) c
        ∙ ap (λ u. continue_open env (parse_loop env k) u l) (sym moved)

    handle_frame-Resumes :
        (id : ℕ) (body : Bytes) (s : Session) (l : Logic)
        → length (s.receive_buffer ++ y) < k
        → ((t : Session) (l : Logic) → t.receive_buffer ≡ s.receive_buffer → Resumes y again t l)
        → let r = handle_frame env id body s l again in
          is_closed r.0 ≡ false
          → parse_frames env (extend y r.0) r.1
            ≡ handle_frame env id body (extend y s) l (parse_loop env k)
    unfolding handle_frame
    handle_frame-Resumes id body s l h ih = frame_case (id == heartbeat_request)
      where
        frame_case :
            (is_beat : Bool)
            → let post = λ (f : Loop) (t : Session).
              continue env f (post_frame env (record { request_id = id; payload = body }) t l) in
              let r = if is_beat then beat env again body s (read_clock l) else post again s in
              is_closed r.0 ≡ false
              → parse_frames env (extend y r.0) r.1 ≡ (
                  if is_beat
                  then beat env (parse_loop env k) body (extend y s) (read_clock l)
                  else post (parse_loop env k) (extend y s))
        frame_case true c = heartbeat-Resumes (read_clock l).1 body s (read_clock l).0 h ih c
        frame_case false c =
            taken_case (env.post (record { request_id = id; payload = body }) l).1 s
              (env.post (record { request_id = id; payload = body }) l).0 h ih c

  -- A whole frame in front of the buffer, whatever follows it.
  pub parse_frames_step :
      (b₀ b₁ b₂ b₃ : ℕ) (body y : Bytes) (s : Session) (l : Logic)
      → s.receive_buffer ≡ b₀ ∷ (b₁ ∷ (b₂ ∷ (b₃ ∷ body)))
      → leb first_internal_id (read16 b₀ b₁) ≡ false
      → read16 b₂ b₃ ≤ length body
      → parse_frames env (extend y s) l
        ≡ handle_frame env
            (read16 b₀ b₁)
            (take (read16 b₂ b₃) body)
            (with_buffer (drop (read16 b₂ b₃) body ++ y) s)
            l
            (parse_loop env (length (s.receive_buffer ++ y)))
  unfolding parse_frames parse_loop parse_front
  parse_frames_step b₀ b₁ b₂ b₃ body y s l e f n = front ∙ tests
    where
      loop : Loop
      loop = parse_loop env (length (s.receive_buffer ++ y))

      front :
          parse_frames env (extend y s) l
          ≡ parse_front env (b₀ ∷ (b₁ ∷ (b₂ ∷ (b₃ ∷ (body ++ y))))) (extend y s) l loop
      front = ap (λ q. parse_front env (q ++ y) (extend y s) l loop) e

      room : ltb (length (body ++ y)) (read16 b₂ b₃) ≡ false
      room = ground (arith, length-append body y)

      tests :
          parse_front env (b₀ ∷ (b₁ ∷ (b₂ ∷ (b₃ ∷ (body ++ y))))) (extend y s) l loop
          ≡ handle_frame env
              (read16 b₀ b₁)
              (take (read16 b₂ b₃) body)
              (with_buffer (drop (read16 b₂ b₃) body ++ y) s)
              l
              loop
      tests =
          rw (
            f,
            room,
            take-append_le (read16 b₂ b₃) body y n,
            drop-append_le (read16 b₂ b₃) body y n,
          )

  -- One round over the bytes `q` of the buffer.
  parse_front-Resumes :
      (y : Bytes) (again : Loop) (q : Bytes) (s : Session) (l : Logic)
      → s.receive_buffer ≡ q
      → ((t : Session) (l : Logic) → length t.receive_buffer < length q → Resumes y again t l)
      → let r = parse_front env q s l again in
        is_closed r.0 ≡ false
        → parse_frames env (extend y r.0) r.1 ≡ parse_frames env (extend y s) l
  unfolding parse_front request_close
  parse_front-Resumes y again (b₀ ∷ (b₁ ∷ (b₂ ∷ (b₃ ∷ body)))) s l e ih c =
      round (leb first_internal_id id) (ltb (length body) n) refl refl c
    where
      id : ℕ
      id = read16 b₀ b₁

      n : ℕ
      n = read16 b₂ b₃

      round :
          (forged short : Bool)
          → leb first_internal_id id ≡ forged
          → ltb (length body) n ≡ short
          → let r : Session × Logic =
              if forged
              then (request_close s, l)
              else if short
              then (s, l)
              else handle_frame env id (take n body) (with_buffer (drop n body) s) l again in
            is_closed r.0 ≡ false
            → parse_frames env (extend y r.0) r.1 ≡ parse_frames env (extend y s) l
      round true short f t c = absurd (false≢true (sym c ∙ closed-request_close s))
      round false true f t c = refl
      round false false f t c =
          handle_frame-Resumes y again (length (s.receive_buffer ++ y)) id (take n body)
            (with_buffer (drop n body) s) l
            (omega (
              arith,
              ap (λ (b : Bytes). length b) e,
              length-append (drop n body) y,
              length-append s.receive_buffer y,
              length-drop n body,
            ))
            (λ u l' q. ih u l' (omega (arith, ap (λ (b : Bytes). length b) q, length-drop n body)))
            c
          ∙ sym (parse_frames_step b₀ b₁ b₂ b₃ body y s l e f (ground arith))
  parse_front-Resumes y again _ s l e ih c = refl

  parse_loop-Resumes :
      (y : Bytes) (fuel : ℕ) (s : Session) (l : Logic)
      → length s.receive_buffer < fuel
      → Resumes y (parse_loop env fuel) s l
  unfolding parse_loop
  parse_loop-Resumes y zero s l h = absurd (omega arith)
  parse_loop-Resumes y (suc fuel) s l h =
      parse_front-Resumes y (parse_loop env fuel) s.receive_buffer s l refl
        λ t l' lt. parse_loop-Resumes y fuel t l' (omega arith)

  -- Unless the first chunk closes the connection, two chunks that arrive one after the other leave
  -- the session, its unparsed rest, LogicSystem and the clock as the two together in one chunk do,
  -- where the clock is what its reads make of it: the heartbeats get the same readings in both cases,
  -- each its own.
  pub feed_split :
      (a y : Bytes) (s : Session) (l : Logic)
      → is_closed (feed env a s l).0 ≡ false
      → feed env y (feed env a s l).0 (feed env a s l).1 ≡ feed env (a ++ y) s l
  unfolding feed parse_frames
  feed_split a y s l c =
      parse_loop-Resumes y (suc (length (s.receive_buffer ++ a))) (extend a s) l (omega arith) c
      ∙ ap (λ b. parse_frames env (with_buffer b s) l) (append_assoc s.receive_buffer a y)
