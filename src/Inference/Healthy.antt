-- ===== src/Inference/Healthy.antt =====
-- Runs whose ports report no stale index: the only failure that ends an event cannot come.
use ml_service.Prelude.{ℕ, inl, inr, Bool-cases, Option, none, some, List, [], ◌∷◌, length}
use ml_service.Failure.{
  Failure, media_fetch, media_decode, version_mismatch, unexpected, Result, ok, err, ◌>>=◌,
}
use ml_service.Decision.{Thresholds}
use ml_service.Identify.{
  FaceBox, Frame, FaceResult, IdentifyResult, identify_faces, identify_frame, identify_from,
  identify_in_frames,
}
use ml_service.Media.{InferenceJob, EventJob, MediaType, image, video, BackendMedia, JobOutcome}
use ml_service.Inference.{Db, Settings, Ports, ended_by, frames_of, identify_media, finish, process}
use ml_service.Inference.Event.{
  is_completed, to_photo_job, Tally, settle, continue_with, photo_step, event_loop, finish_event,
  started, roster_of, process_event, zero_tally,
}

abbrev pub Spares : Failure → Type 0
Spares version_mismatch = ⊥
Spares media_fetch = Unit
Spares media_decode = Unit
Spares unexpected = Unit

-- A result that is no version mismatch.
abbrev pub IsFine : {A : Type 0} → Result A → Type 0
IsFine (ok a) = Unit
IsFine (err e) = Spares e

abbrev pub EndsFine : Option Failure → Type 0
EndsFine none = Unit
EndsFine (some e) = Spares e

-- No port reports a version mismatch: every stored index was built by the configured embedder.
pub record IsHealthy {Image Embedding : Type 0} (p : Ports Image Embedding) : Type 0 where
  pub fetch_fine : (uri : ℕ) → IsFine (p.fetch uri)
  pub extract_fine : (bytes : Image) (fps : ℕ) → EndsFine (p.extract bytes fps).1
  pub detect_fine : (bytes : Image) → IsFine (p.vision.detect bytes)
  pub embed_fine : (bytes : Image) (box : FaceBox) → IsFine (p.vision.embed bytes box)
  pub search_fine : (school_id : ℕ) (e : Embedding) (k : ℕ) → IsFine (p.vision.search school_id e k)

abbrev pub IsOk : {A : Type 0} → Result A → Type 0
IsOk (ok a) = Unit
IsOk (err e) = ⊥

bind-IsFine :
    {A B : Type 0} (m : Result A) (f : A → Result B)
    → IsFine m
    → ((a : A) → IsFine (f a))
    → IsFine (m >>= f)
bind-IsFine (ok a) f hm hf = hf a
bind-IsFine (err e) f hm hf = hm

ended_by-IsFine : {A : Type 0} (o : Option Failure) (a : A) → EndsFine o → IsFine (ended_by o a)
ended_by-IsFine none a h = tt
ended_by-IsFine (some e) a h = h

module _ {Image Embedding : Type 0} (s : Settings) (p : Ports Image Embedding)
    (healthy : IsHealthy p) where
  identify_faces-IsFine :
      (school : ℕ) (t : Thresholds) (k : ℕ) (frame : Frame Image) (boxes : List FaceBox)
      (acc : IdentifyResult × List FaceResult)
      → IsFine (identify_faces p.vision school t k frame boxes acc)
  unfolding identify_faces
  identify_faces-IsFine school t k frame [] acc = tt
  identify_faces-IsFine school t k frame (box ∷ boxes) acc =
      bind-IsFine (p.vision.embed frame.image_bytes box) _
        (healthy.embed_fine frame.image_bytes box)
        (λ e.
          bind-IsFine (p.vision.search school e k) _ (healthy.search_fine school e k)
            (λ cs. identify_faces-IsFine school t k frame boxes _))

  identify_frame-IsFine :
      (school : ℕ) (t : Thresholds) (k : ℕ) (frame : Frame Image) (r : IdentifyResult)
      → IsFine (identify_frame p.vision school t k frame r)
  unfolding identify_frame
  identify_frame-IsFine school t k frame r =
      bind-IsFine (p.vision.detect frame.image_bytes) _ (healthy.detect_fine frame.image_bytes)
        (λ boxes.
          bind-IsFine (identify_faces p.vision school t k frame boxes _) _
            (identify_faces-IsFine school t k frame boxes _) (λ x. tt))

  identify_from-IsFine :
      (school : ℕ) (t : Thresholds) (k : ℕ) (frames : List (Frame Image)) (r : IdentifyResult)
      → IsFine (identify_from p.vision school t k frames r)
  unfolding identify_from
  identify_from-IsFine school t k [] r = tt
  identify_from-IsFine school t k (frame ∷ frames) r =
      bind-IsFine (identify_frame p.vision school t k frame r) _
        (identify_frame-IsFine school t k frame r) (λ r'. identify_from-IsFine school t k frames r')

  frames_of-EndsFine : (kind : MediaType) (bytes : Image) → EndsFine (frames_of s p kind bytes).1
  frames_of-EndsFine video bytes = healthy.extract_fine bytes s.video_fps
  frames_of-EndsFine image bytes = tt

  identify_media-IsFine : (job : InferenceJob) → IsFine (identify_media s p job)
  unfolding identify_media identify_in_frames
  identify_media-IsFine job =
      bind-IsFine (p.fetch job.media_uri) _ (healthy.fetch_fine job.media_uri) (λ bytes.
        bind-IsFine
          (identify_in_frames p.vision job.school_id (p.get_thresholds job.school_id) s.top_k
            (frames_of s p job.media_type bytes).0)
          _ (identify_from-IsFine job.school_id _ s.top_k _ _)
          (λ r. ended_by-IsFine _ r (frames_of-EndsFine job.media_type bytes)))

  process-IsFine : (job : InferenceJob) (db : Db) → IsFine (process s p job db).0
  unfolding process
  process-IsFine job db = finished (identify_media s p job) (identify_media-IsFine job)
    where
      finished : (r : Result IdentifyResult) → IsFine r → IsFine (finish s p job r db).0
      finished (ok r) h = tt
      finished (err e) h = h

  settle-IsOk :
      (job : EventJob) (m : BackendMedia) (t : Tally) (r : Result JobOutcome) (db : Db)
      → IsFine r
      → IsOk (settle job m t r db).0
  unfolding settle
  settle-IsOk job m t (ok o) db h = tt
  settle-IsOk job m t (err version_mismatch) db h = h
  settle-IsOk job m t (err media_fetch) db h = tt
  settle-IsOk job m t (err media_decode) db h = tt
  settle-IsOk job m t (err unexpected) db h = tt

  photo_step-IsOk :
      (job : EventJob) (m : BackendMedia) (t : Tally) (db : Db) → IsOk (photo_step s p job m t db).0
  unfolding photo_step
  photo_step-IsOk job m t db = elim (Bool-cases (is_completed m.processing_status)) [
    | inl done ↦ rw done tt
    | inr todo ↦ rw todo (
        settle-IsOk job m t (process s p (to_photo_job job m) db).0
          (process s p (to_photo_job job m) db).1 (process-IsFine (to_photo_job job m) db))
  ]

  continue_with-IsOk :
      (rest : Tally → Db → Result Tally × Db) (x : Result Tally × Db)
      → IsOk x.0
      → ((t : Tally) (db : Db) → IsOk (rest t db).0)
      → IsOk (continue_with rest x).0
  continue_with-IsOk rest (ok t, db) h next = next t db
  continue_with-IsOk rest (err e, db) h next = h

  event_loop-IsOk :
      (job : EventJob) (roster : List BackendMedia) (t : Tally) (db : Db)
      → IsOk (event_loop s p job roster t db).0
  unfolding event_loop
  event_loop-IsOk job [] t db = tt
  event_loop-IsOk job (m ∷ roster) t db =
      continue_with-IsOk (λ t' db'. event_loop s p job roster t' db') (photo_step s p job m t db)
        (photo_step-IsOk job m t db) (λ t' db'. event_loop-IsOk job roster t' db')

  -- With such ports a run over an event succeeds, whatever the photos are.
  pub process_event-IsOk : (job : EventJob) (db : Db) → IsOk (process_event s p job db).0
  unfolding process_event
  process_event-IsOk job db =
      finished (event_loop s p job (roster_of s p job db) zero_tally (started s p job db))
        (event_loop-IsOk job (roster_of s p job db) zero_tally (started s p job db))
    where
      finished :
          (x : Result Tally × Db)
          → IsOk x.0
          → IsOk (finish_event s p job (length (roster_of s p job db)) x).0
      finished (ok t, db') h = tt
      finished (err e, db') h = h
