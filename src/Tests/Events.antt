-- ===== src/Tests/Events.antt =====
-- An event with one photo, from the press of "Process" to its completion.
use ml_service.Prelude.{ℕ, ◌≡◌, refl, true, false, none, some, All, List, [], ◌∷◌, pos}
use ml_service.Failure as Ml
use ml_service.Media.{EventJob, image, pending}
use ml_service.Identify.{FaceBox, Vision}
use ml_service.EventStore.{EventRow, mark_event_completed, not_started}
use ml_service.Inference.{Db, Settings, Ports}
use ml_service.Inference.Healthy.{IsHealthy}
use ml_service.Worker.{World}
use ml_service.Worker.Completion.{rounds, IsCompleted, rounds-completes}

abbrev box : FaceBox
box = record { x1 = pos 1; y1 = pos 2; x2 = pos 30; y2 = pos 40; score = pos 99 }

abbrev vision : Vision ℕ ℕ
vision = record {
  detect = λ bytes. Ml.ok (box ∷ []);
  embed = λ bytes face. Ml.ok bytes;
  search = λ school e k. Ml.ok (record { student_id = 7; score = pos 90 } ∷ []);
}

abbrev settings : Settings
settings = record {
  top_k = 3;
  video_fps = 2;
  persist_detections = true;
  detector_version = 4;
  embedding_version = 5;
}

abbrev ports : Ports ℕ ℕ
ports = record {
  vision = vision;
  fetch = λ uri. Ml.err Ml.media_fetch;
  extract = λ bytes fps. ([], none);
  get_thresholds = λ school. record { match_confidence = pos 50; gap = pos 10 };
  elapsed_ms = λ job db. 12;
}

-- A store that cannot be reached is no stale index.
abbrev healthy : IsHealthy ports
healthy = record {
  fetch_fine = λ uri. tt;
  extract_fine = λ bytes fps. tt;
  detect_fine = λ bytes. tt;
  embed_fine = λ bytes face. tt;
  search_fine = λ school e k. tt;
}

abbrev event_row : EventRow
event_row = record {
  id = 2;
  school_id = 1;
  status = not_started;
  completed_at = false;
  archived = false;
  enqueued_at = none;
}

abbrev db : Db
db = record {
  matches = [];
  detections = [];
  events = event_row ∷ [];
  media =
      record {
        id = 10;
        school_id = 1;
        event_id = 2;
        storage_path = 7;
        media_type = some image;
        status = pending;
        completed_at = false;
      }
      ∷ [];
}

-- The worker takes and completes the job before the status is written.
abbrev meanwhile : Db × List EventJob → Db × List EventJob
meanwhile (db, q) = (record db { events = mark_event_completed 1 2 db.events }, [])

-- Two jobs wait for the same event.
abbrev world : World
world = record {
  db = db;
  queue = record {
    waiting = record { school_id = 1; event_id = 2 } ∷ record { school_id = 1; event_id = 2 } ∷ [];
    unfinished = 2;
    counter = 0;
  };
}

rounds-completes_example :
    ((rounds settings ports 2 world).queue.waiting ≡ [])
    × All (IsCompleted (rounds settings ports 2 world).db.events) world.queue.waiting
rounds-completes_example = rounds-completes settings ports healthy world (refl, (refl, tt))
