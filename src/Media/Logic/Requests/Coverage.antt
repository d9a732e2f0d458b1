-- ===== src/Media/Logic/Requests/Coverage.antt =====
-- Which rooms hear of a lost connection.
use sync_rtc.Prelude.{
  ℕ, ◌≡◌, refl, ◌∙◌, Bool, true, false, Option, none, some, List, [], ◌∷◌, ◌++◌, map, ◌==◌,
  if◌then◌else◌, Bytes, arith,
}
use sync_rtc.Prelude.Json.{Json}
use sync_rtc.Prelude.Distinct.{contains}
use sync_rtc.Media.Logic.Requests.{
  MediaSignalRequest, parse_media_signal_request, Posted, signal, lost, Connection, post_request,
  post_msg_to_que, post_signal_disconnected, ReadStep, reads, stopped_by, read_step, read_steps,
}

-- The room gets the notice.
abbrev pub hears : ℕ → List Posted → Bool
hears m [] = false
hears m (lost k ∷ ps) = if k == m then true else hears m ps
hears m (signal q ∷ ps) = hears m ps

-- Every room to which a request was posted is in the set.
abbrev AllRemembered : List ℕ → List Posted → Type 0
AllRemembered ids [] = Unit {0}
AllRemembered ids (signal q ∷ ps) = (contains ids q.meeting_id ≡ true) × AllRemembered ids ps
AllRemembered ids (lost k ∷ ps) = AllRemembered ids ps

-- Every room to which a request was posted gets the notice.
abbrev pub AllHear : List Posted → List Posted → Type 0
AllHear notices [] = Unit {0}
AllHear notices (signal q ∷ ps) = (hears q.meeting_id notices ≡ true) × AllHear notices ps
AllHear notices (lost k ∷ ps) = AllHear notices ps

abbrev Grows : Connection → Connection → Type 0
Grows c c' = (m : ℕ) → contains c.meeting_ids m ≡ true → contains c'.meeting_ids m ≡ true

module _ (read : Bytes → Option Json) where
  post-Grows : (o : Option MediaSignalRequest) (c : Connection) → Grows c (post_request o c).0
  unfolding contains
  post-Grows none c m h = h
  post-Grows (some q) c m h = ground (arith, h)

  step-Grows : (x : ReadStep) (c : Connection) → Grows c (read_step read x c).0
  unfolding post_msg_to_que
  step-Grows (reads message) c m h = post-Grows (parse_media_signal_request read message) c m h
  step-Grows stopped_by c m h = h

  steps-Grows : (xs : List ReadStep) (c : Connection) → Grows c (read_steps read xs c).0
  unfolding read_steps
  steps-Grows [] c m h = h
  steps-Grows (x ∷ xs) c m h = steps-Grows xs (read_step read x c).0 m (step-Grows x c m h)

  post-AllRemembered :
      (o : Option MediaSignalRequest) (c : Connection)
      → AllRemembered (post_request o c).0.meeting_ids (post_request o c).1
  unfolding contains
  post-AllRemembered none c = tt
  post-AllRemembered (some q) c = ground arith

  step-AllRemembered :
      (x : ReadStep) (c : Connection)
      → AllRemembered (read_step read x c).0.meeting_ids (read_step read x c).1
  unfolding post_msg_to_que
  step-AllRemembered (reads message) c =
      post-AllRemembered (parse_media_signal_request read message) c
  step-AllRemembered stopped_by c = tt

  AllRemembered-append :
      (ids : List ℕ) (ps qs : List Posted)
      → AllRemembered ids ps
      → AllRemembered ids qs
      → AllRemembered ids (ps ++ qs)
  AllRemembered-append ids [] qs h k = k
  AllRemembered-append ids (signal q ∷ ps) qs h k = (h.0, AllRemembered-append ids ps qs h.1 k)
  AllRemembered-append ids (lost m ∷ ps) qs h k = AllRemembered-append ids ps qs h k

  AllRemembered-Grows :
      (c c' : Connection) (ps : List Posted)
      → Grows c c'
      → AllRemembered c.meeting_ids ps
      → AllRemembered c'.meeting_ids ps
  AllRemembered-Grows c c' [] g h = tt
  AllRemembered-Grows c c' (signal q ∷ ps) g h =
      (g q.meeting_id h.0, AllRemembered-Grows c c' ps g h.1)
  AllRemembered-Grows c c' (lost m ∷ ps) g h = AllRemembered-Grows c c' ps g h

  steps-AllRemembered :
      (xs : List ReadStep) (c : Connection)
      → AllRemembered (read_steps read xs c).0.meeting_ids (read_steps read xs c).1
  unfolding read_steps
  steps-AllRemembered [] c = tt
  steps-AllRemembered (x ∷ xs) c =
      AllRemembered-append _ (read_step read x c).1 (read_steps read xs (read_step read x c).0).1
        (AllRemembered-Grows (read_step read x c).0 (read_steps read xs (read_step read x c).0).0
          (read_step read x c).1 (steps-Grows xs (read_step read x c).0) (step-AllRemembered x c))
        (steps-AllRemembered xs (read_step read x c).0)

  hears-lost : (m : ℕ) (ids : List ℕ) → hears m (map lost ids) ≡ contains ids m
  unfolding contains
  hears-lost m [] = refl
  hears-lost m (k ∷ ids) = ground (arith, hears-lost m ids)

  AllRemembered-AllHear :
      (ids : List ℕ) (ps : List Posted) → AllRemembered ids ps → AllHear (map lost ids) ps
  AllRemembered-AllHear ids [] h = tt
  AllRemembered-AllHear ids (signal q ∷ ps) h =
      (hears-lost q.meeting_id ids ∙ h.0, AllRemembered-AllHear ids ps h.1)
  AllRemembered-AllHear ids (lost m ∷ ps) h = AllRemembered-AllHear ids ps h

  -- When the reading thread of a stopped connection ends, every room for which the connection ever
  -- posted a request is sent the notice of its loss, wherever in between the connection stopped.
  pub post_signal_disconnected-AllHear :
      (xs : List ReadStep) (c : Connection)
      → (read_steps read xs c).0.stopped ≡ true
      → AllHear (post_signal_disconnected (read_steps read xs c).0) (read_steps read xs c).1
  unfolding post_signal_disconnected
  post_signal_disconnected-AllHear xs c gone = rw gone (
      AllRemembered-AllHear (read_steps read xs c).0.meeting_ids (read_steps read xs c).1
        (steps-AllRemembered xs c))
