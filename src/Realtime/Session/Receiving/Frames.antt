-- ===== src/Realtime/Session/Receiving/Frames.antt =====
-- The receiver reads the frames that a sender encodes.
use sync_rtc.Prelude.{
  ℕ, ◌/◌, ◌%◌, ◌^◌, ◌<◌, ◌≡◌, ◌≢◌, refl, ap, ◌∙◌, Bool, true, false, List, [], ◌∷◌, ◌++◌, length,
  length-append, take, drop, append_assoc, take_past, drop_past, ◌==◌, Bytes, arith, if◌then◌else◌,
}
use sync_rtc.Wire.{read16, write16, read16_write}
use sync_rtc.Realtime.Session.{Session, request_close}
use sync_rtc.Realtime.Session.Sending.{encode}
use sync_rtc.Realtime.Session.Receiving.{
  Env, Frame, with_buffer, first_internal_id, heartbeat_request, handle_frame, parse_loop,
  parse_front, parse_frames, feed, post_frame,
}
use sync_rtc.Realtime.Session.Receiving.Chunks.{parse_frames_step, parse_frames_fuel}

-- A frame of a business request that the protocol can carry.
pub record IsCarried (f : Frame) : Type 0 where
  pub external : f.request_id < first_internal_id
  pub business : f.request_id ≢ heartbeat_request
  pub fits : length f.payload < 2 ^ 16

abbrev pub AllCarried : List Frame → Type 0
AllCarried [] = Unit {0}
AllCarried (f ∷ fs) = IsCarried f × AllCarried fs

abbrev pub encode_all : List Frame → Bytes
encode_all [] = []
encode_all (f ∷ fs) = encode f.request_id f.payload ++ encode_all fs

module _ (env : Env) where
  open env use {Logic}

  -- The frames posted to LogicSystem in order.
  unfoldable pub deliver : List Frame → Session → Logic → Session × Logic
  deliver [] s l = (s, l)
  deliver (f ∷ fs) s l = let (s', l') = post_frame env f s l in deliver fs s' l'

  taken_rest :
      (k : ℕ) (rest : Bytes) (taken : Bool) (s : Session) (l : Logic)
      → length rest < k
      → parse_loop env k
          (if taken then with_buffer rest s else request_close (with_buffer rest s))
          l
        ≡ parse_frames env (with_buffer rest (if taken then s else request_close s)) l
  unfolding request_close
  taken_rest k rest true s l h = parse_frames_fuel env k (with_buffer rest s) l h
  taken_rest k rest false s l h = parse_frames_fuel env k (with_buffer rest (request_close s)) l h

  -- The rest of the loop after a frame that is posted.
  posted_rest :
      (k : ℕ) (f : Frame) (rest : Bytes) (s : Session) (l : Logic)
      → length rest < k
      → (f.request_id == heartbeat_request) ≡ false
      → handle_frame env f.request_id f.payload (with_buffer rest s) l (parse_loop env k)
        ≡ parse_frames env (with_buffer rest (post_frame env f s l).0) (post_frame env f s l).1
  unfolding handle_frame
  posted_rest k f rest s l h t = rw t (taken_rest k rest (env.post f l).1 s (env.post f l).0 h)

  parse_frames-encode :
      (f : Frame) (rest : Bytes) (s : Session) (l : Logic)
      → IsCarried f
      → parse_frames env (with_buffer (encode f.request_id f.payload ++ rest) s) l
        ≡ parse_frames env (with_buffer rest (post_frame env f s l).0) (post_frame env f s l).1
  unfolding encode write16
  parse_frames-encode f rest s l v =
      first
      ∙ cut
      ∙ posted_rest k f rest s l (omega (arith, length-append f.payload rest))
          (ground (arith, v.business))
    where
      id : ℕ
      id = f.request_id

      len : ℕ
      len = length f.payload

      k : ℕ
      k = length (encode id f.payload ++ rest)

      read_id : read16 (id / 2 ^ 8 % 256) (id % 256) ≡ id
      read_id = read16_write id (omega arith)

      read_len : read16 (len / 2 ^ 8 % 256) (len % 256) ≡ len
      read_len = read16_write len (omega arith)

      first :
          parse_frames env (with_buffer (encode id f.payload ++ rest) s) l
          ≡ handle_frame env
              (read16 (id / 2 ^ 8 % 256) (id % 256))
              (take (read16 (len / 2 ^ 8 % 256) (len % 256)) f.payload)
              (with_buffer (drop (read16 (len / 2 ^ 8 % 256) (len % 256)) f.payload ++ rest) s)
              l
              (parse_loop env k)
      first =
          parse_frames_step env _ _ _ _ f.payload rest (with_buffer (encode id f.payload) s) l refl
            (ground (arith, read_id, v.external)) (omega (arith, read_len))

      cut :
          handle_frame env
            (read16 (id / 2 ^ 8 % 256) (id % 256))
            (take (read16 (len / 2 ^ 8 % 256) (len % 256)) f.payload)
            (with_buffer (drop (read16 (len / 2 ^ 8 % 256) (len % 256)) f.payload ++ rest) s)
            l
            (parse_loop env k)
          ≡ handle_frame env id f.payload (with_buffer rest s) l (parse_loop env k)
      cut = rw (
        read_id,
        read_len,
        take_past len f.payload (omega arith),
        drop_past len f.payload (omega arith),
      )

  parse_frames-encode_all :
      (fs : List Frame) (rest : Bytes) (s : Session) (l : Logic)
      → AllCarried fs
      → parse_frames env (with_buffer (encode_all fs ++ rest) s) l
        ≡ parse_frames env (with_buffer rest (deliver fs s l).0) (deliver fs s l).1
  unfolding deliver
  parse_frames-encode_all [] rest s l v = refl
  parse_frames-encode_all (f ∷ fs) rest s l v =
      ap (λ b. parse_frames env (with_buffer b s) l)
        (append_assoc (encode f.request_id f.payload) (encode_all fs) rest)
      ∙ parse_frames-encode f (encode_all fs ++ rest) s l v.0
      ∙ parse_frames-encode_all fs rest (post_frame env f s l).0 (post_frame env f s l).1 v.1

  parse_frames_short :
      (rest : Bytes) (s : Session) (l : Logic)
      → length rest < 4
      → parse_frames env (with_buffer rest s) l ≡ (with_buffer rest s, l)
  unfolding parse_frames parse_loop parse_front
  parse_frames_short (b₀ ∷ (b₁ ∷ (b₂ ∷ (b₃ ∷ body)))) s l h = absurd (omega arith)
  parse_frames_short _ s l h = refl

  -- A session with no unparsed rest that receives the encodings of business frames, followed by
  -- fewer than four bytes of a further header, posts exactly those frames to LogicSystem, in their
  -- order and unchanged, closing where LogicSystem refuses one, and keeps the further bytes.
  pub feed-encode_all :
      (fs : List Frame) (rest : Bytes) (s : Session) (l : Logic)
      → s.receive_buffer ≡ []
      → AllCarried fs
      → length rest < 4
      → feed env (encode_all fs ++ rest) s l
        ≡ (with_buffer rest (deliver fs s l).0, (deliver fs s l).1)
  unfolding feed
  feed-encode_all fs rest s l e v h =
      ap (λ b. parse_frames env (with_buffer (b ++ (encode_all fs ++ rest)) s) l) e
      ∙ parse_frames-encode_all fs rest s l v
      ∙ parse_frames_short rest (deliver fs s l).0 (deliver fs s l).1 h
