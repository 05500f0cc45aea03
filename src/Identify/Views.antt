-- ===== src/Identify/Views.antt =====
-- The two views of one identify pass agree: `people` and the counters are functions of `frames`.
use ml_service.Prelude.{
  suc, ℕ, ◌+◌, ◌≡◌, ◌≤ℤ◌, refl, ◌∙◌, sym, ap, Option, some, List, [], ◌∷◌, ◌++◌, map, arith, Dict,
  lookup, length, length-append, In, All, All-append, sum_of, sum_of-append, subst, append_assoc,
  append-nil, collapse-append, lookup-collapse_best, lookup-collapse_covers, collapse,
}
use ml_service.Failure.{ok, >>=-eq-ok, ok-injective}
use ml_service.Decision.{Candidate, Thresholds, apply_threshold_and_gap}
use ml_service.Identify.{
  FaceBox, Frame, Vision, PersonHit, FaceResult, FrameResult, IdentifyResult, empty_result,
  person_hit, keep_hits, cleared_students, add_face, identify_faces, identify_frame, identify_from,
  identify_in_frames,
}

-- The hits of a timeline, in order.
abbrev pub face_hits : List FaceResult → List PersonHit
face_hits [] = []
face_hits (f ∷ fs) = f.people ++ face_hits fs

abbrev pub frame_hits : List FrameResult → List PersonHit
frame_hits [] = []
frame_hits (f ∷ fs) = face_hits f.faces ++ frame_hits fs

abbrev pub unknown : FaceResult → ℕ
unknown f = elim f.people [ [] ↦ 1 | ◌∷◌ x y ↦ 0 ]

abbrev pub cleared : Thresholds → FaceResult → ℕ
cleared t f = cleared_students f.candidates t

-- The people of a face are the decision on its candidates, at the face's box and time.
abbrev pub IsDecided : Thresholds → Option ℕ → FaceResult → Type 0
IsDecided t time f =
    f.people ≡ map (person_hit f.bbox time) (apply_threshold_and_gap f.candidates t)

abbrev pub IsDecidedFrame : Thresholds → FrameResult → Type 0
IsDecidedFrame t f = All (IsDecided t f.frame_timestamp_ms) f.faces

-- A hit of the list that is this student's, and none of the student's scores higher.
pub record IsBestHit (hits : List PersonHit) (student_id : ℕ) (h : PersonHit) : Type 0 where
  pub member : In h hits
  pub owner : h.student_id ≡ student_id
  pub highest : (k : PersonHit) → In k hits → k.student_id ≡ student_id → k.score ≤ℤ h.score

-- What holds of the result after `n` frames.
pub record Agrees (t : Thresholds) (n : ℕ) (r : IdentifyResult) : Type 0 where
  pub people_eq : r.people ≡ keep_hits [] (frame_hits r.frames)
  pub faces_eq : r.faces_detected ≡ sum_of (λ f. length f.faces) r.frames
  pub unknown_eq : r.unknown_faces ≡ sum_of (λ f. sum_of unknown f.faces) r.frames
  pub cleared_eq : r.candidates_above_threshold ≡ sum_of (λ f. sum_of (cleared t) f.faces) r.frames
  pub frames_eq : r.frames_processed ≡ n
  pub timeline_eq : length r.frames ≡ n
  pub decided : All (IsDecidedFrame t) r.frames

-- The same inside a frame, with the faces so far and the boxes that are left.
record Within (t : Thresholds) (time : Option ℕ) (n left : ℕ) (r : IdentifyResult)
    (faces : List FaceResult) : Type 0 where
  people_eq : r.people ≡ keep_hits [] (frame_hits r.frames ++ face_hits faces)
  faces_eq : r.faces_detected ≡ sum_of (λ f. length f.faces) r.frames + length faces + left
  unknown_eq :
      r.unknown_faces ≡ sum_of (λ f. sum_of unknown f.faces) r.frames + sum_of unknown faces
  cleared_eq :
      r.candidates_above_threshold
      ≡ sum_of (λ f. sum_of (cleared t) f.faces) r.frames + sum_of (cleared t) faces
  frames_eq : r.frames_processed ≡ n + 1
  timeline_eq : length r.frames ≡ n
  decided : All (IsDecidedFrame t) r.frames
  here : All (IsDecided t time) faces

face_hits-append : (xs ys : List FaceResult) → face_hits (xs ++ ys) ≡ face_hits xs ++ face_hits ys
face_hits-append [] ys = refl
face_hits-append (x ∷ xs) ys = simp (face_hits-append xs ys, append_assoc)

frame_hits-append :
    (xs ys : List FrameResult) → frame_hits (xs ++ ys) ≡ frame_hits xs ++ frame_hits ys
frame_hits-append [] ys = refl
frame_hits-append (x ∷ xs) ys = simp (frame_hits-append xs ys, append_assoc)

keep_hits-append :
    (b : Dict PersonHit) (xs ys : List PersonHit)
    → keep_hits b (xs ++ ys) ≡ keep_hits (keep_hits b xs) ys
unfolding keep_hits
keep_hits-append b xs ys = collapse-append (λ h. h.student_id) (λ h. h.score) b xs ys

module _ (t : Thresholds) (time : Option ℕ) (n : ℕ) where
  add_face-Within :
      (box : FaceBox) (cs : List Candidate) (left : ℕ) (r : IdentifyResult)
      (faces : List FaceResult)
      → Within t time n (suc left) r faces
      → let (r', faces') = add_face t box time cs (r, faces) in Within t time n left r' faces'
  unfolding add_face
  add_face-Within box cs left r faces w =
      let face : FaceResult = record {
        bbox = box;
        people = map (person_hit box time) (apply_threshold_and_gap cs t);
        candidates = cs;
      } in
      record {
        people_eq =
            ap (λ b. keep_hits b face.people) w.people_eq
            ∙ sym (keep_hits-append [] (frame_hits r.frames ++ face_hits faces) face.people)
            ∙ ap (keep_hits []) {x = (frame_hits r.frames ++ face_hits faces) ++ face.people}
                {y = frame_hits r.frames ++ face_hits (faces ++ face ∷ [])}
                (simp (face_hits-append, append_assoc, append-nil));
        faces_eq = omega (arith, w.faces_eq, length-append faces (face ∷ []));
        unknown_eq = omega (arith, w.unknown_eq, sum_of-append unknown faces (face ∷ []));
        cleared_eq = omega (arith, w.cleared_eq, sum_of-append (cleared t) faces (face ∷ []));
        frames_eq = w.frames_eq;
        timeline_eq = w.timeline_eq;
        decided = w.decided;
        here = All-append (IsDecided t time) faces (face ∷ []) w.here (refl, tt);
      }

module _ {Image Embedding : Type 0} (v : Vision Image Embedding) (school_id : ℕ) (t : Thresholds)
    (top_k : ℕ) where
  identify_faces-Within :
      (n : ℕ) (frame : Frame Image) (boxes : List FaceBox)
      (acc acc' : IdentifyResult × List FaceResult)
      → Within t frame.timestamp_ms n (length boxes) acc.0 acc.1
      → identify_faces v school_id t top_k frame boxes acc ≡ ok acc'
      → Within t frame.timestamp_ms n 0 acc'.0 acc'.1
  unfolding identify_faces
  identify_faces-Within n frame [] acc acc' w e =
      subst (λ (a : IdentifyResult × List FaceResult). Within t frame.timestamp_ms n 0 a.0 a.1)
        (ok-injective e) w
  identify_faces-Within n frame (box ∷ boxes) acc acc' w e =
      let (embedding, _, e1) = >>=-eq-ok (v.embed frame.image_bytes box) _ e in
      let (candidates, _, e2) = >>=-eq-ok (v.search school_id embedding top_k) _ e1 in
      identify_faces-Within n frame boxes (add_face t box frame.timestamp_ms candidates acc) acc'
        (add_face-Within t frame.timestamp_ms n box candidates (length boxes) acc.0 acc.1 w) e2

  close_frame :
      (n : ℕ) (time : Option ℕ) (r : IdentifyResult) (faces : List FaceResult)
      → Within t time n 0 r faces
      → Agrees t (n + 1) (record r {
        frames = r.frames ++ record { frame_timestamp_ms = time; faces = faces } ∷ [];
      })
  close_frame n time r faces w =
      let frame : FrameResult = record { frame_timestamp_ms = time; faces = faces } in
      record {
        people_eq =
            w.people_eq
            ∙ ap (keep_hits []) (sym (frame_hits-append r.frames (frame ∷ []) ∙ rw append-nil));
        faces_eq =
            omega (arith, w.faces_eq, sum_of-append (λ f. length f.faces) r.frames (frame ∷ []));
        unknown_eq = omega (
          arith,
          w.unknown_eq,
          sum_of-append (λ f. sum_of unknown f.faces) r.frames (frame ∷ []),
        );
        cleared_eq = omega (
          arith,
          w.cleared_eq,
          sum_of-append (λ f. sum_of (cleared t) f.faces) r.frames (frame ∷ []),
        );
        frames_eq = w.frames_eq;
        timeline_eq = omega (arith, w.timeline_eq, length-append r.frames (frame ∷ []));
        decided = All-append (IsDecidedFrame t) r.frames (frame ∷ []) w.decided (w.here, tt);
      }

  open_frame :
      (n left : ℕ) (time : Option ℕ) (r : IdentifyResult)
      → Agrees t n r
      → Within t time n left
          (record r {
            frames_processed = r.frames_processed + 1;
            faces_detected = r.faces_detected + left;
          })
          []
  open_frame n left time r a = record {
    people_eq = rw append-nil a.people_eq;
    faces_eq = omega (arith, a.faces_eq);
    unknown_eq = omega (arith, a.unknown_eq);
    cleared_eq = omega (arith, a.cleared_eq);
    frames_eq = omega (arith, a.frames_eq);
    timeline_eq = a.timeline_eq;
    decided = a.decided;
    here = tt;
  }

  identify_frame-Agrees :
      (n : ℕ) (frame : Frame Image) (r r' : IdentifyResult)
      → Agrees t n r
      → identify_frame v school_id t top_k frame r ≡ ok r'
      → Agrees t (n + 1) r'
  unfolding identify_frame
  identify_frame-Agrees n frame r r' a e =
      let (boxes, _, e1) = >>=-eq-ok (v.detect frame.image_bytes) _ e in
      let (acc, e2, e3) = >>=-eq-ok (identify_faces v school_id t top_k frame boxes _) _ e1 in
      subst (Agrees t (n + 1)) (ok-injective e3) (
        close_frame n frame.timestamp_ms acc.0 acc.1
          (identify_faces-Within n frame boxes _ acc (open_frame n (length boxes) _ r a) e2))

  identify_from-Agrees :
      (n m : ℕ) (frames : List (Frame Image)) (r r' : IdentifyResult)
      → m ≡ n + length frames
      → Agrees t n r
      → identify_from v school_id t top_k frames r ≡ ok r'
      → Agrees t m r'
  unfolding identify_from
  identify_from-Agrees n m [] r r' eq a e =
      subst (Agrees t m) (ok-injective e) (subst (λ k. Agrees t k r) (omega (arith, eq)) a)
  identify_from-Agrees n m (frame ∷ frames) r r' eq a e =
      let (mid, e1, e2) = >>=-eq-ok (identify_frame v school_id t top_k frame r) _ e in
      identify_from-Agrees (n + 1) m frames mid r' (omega (arith, eq))
        (identify_frame-Agrees n frame r mid a e1) e2

  -- Where a pass over some frames succeeds, its two views agree: `people` is the dedupe of the hits
  -- of the timeline, each counter is a sum over the timeline, the timeline has one entry for each
  -- frame, and the people of each face are the decision on the candidates stored with it.
  pub identify_in_frames-Agrees :
      (frames : List (Frame Image)) (r : IdentifyResult)
      → identify_in_frames v school_id t top_k frames ≡ ok r
      → Agrees t (length frames) r
  unfolding identify_in_frames keep_hits collapse
  identify_in_frames-Agrees frames r e =
      identify_from-Agrees 0 (length frames) frames empty_result r (omega arith)
        (record {
          people_eq = refl;
          faces_eq = refl;
          unknown_eq = refl;
          cleared_eq = refl;
          frames_eq = refl;
          timeline_eq = refl;
          decided = tt;
        })
        e

  -- Where a pass succeeds, every student with a hit in the timeline is kept in `people`, and with a
  -- hit of the timeline that is that student's and that none of the student's hits outscores.
  pub people_best :
      (frames : List (Frame Image)) (r : IdentifyResult) (k : PersonHit)
      → identify_in_frames v school_id t top_k frames ≡ ok r
      → In k (frame_hits r.frames)
      → (h : PersonHit) × (lookup k.student_id r.people ≡ some h)
        × IsBestHit (frame_hits r.frames) k.student_id h
  unfolding keep_hits
  people_best frames r k e m =
      let a = identify_in_frames-Agrees frames r e in
      let hits = frame_hits r.frames in
      let (h, found) = lookup-collapse_covers (λ x. x.student_id) (λ x. x.score) k hits m in
      let (member, owner, highest) =
        lookup-collapse_best (λ x. x.student_id) (λ x. x.score) k.student_id h hits found in
      (
        h,
        ap (lookup k.student_id) a.people_eq ∙ found,
        record { member = member; owner = owner; highest = highest },
      )
