-- ===== src/Backend.antt =====
-- The backend's value objects, errors and tables (services/backend/src/backend/domain/models.py and
-- domain/errors.py). Ids, names and storage paths are only compared or passed on, so they are
-- numbers. `matches` is the ML service's table, which the backend only reads.
use ml_service.Prelude.{ℕ, ◌≡◌, refl, arith, Bool, Option, none, some, List, find, ◌==◌, ◌&&◌}
use ml_service.Media.{MatchRecord}
use ml_service.Decision.{Score}

-- The errors of the domain, and any other exception, as `unexpected`.
pub data BackendError : Type 0 where
  not_found conflict limit_exceeded validation configuration : BackendError
  authentication authorization upstream unexpected : BackendError

pub data Reply {ℓ} (A : Type ℓ) : Type ℓ where
  ok : A → Reply A
  err : BackendError → Reply A

infixl 5 ◌>>=◌ ◌>>◌
abbrev pub ◌>>=◌ {ℓ κ} : {A : Type ℓ} {B : Type κ} → Reply A → (A → Reply B) → Reply B
ok x >>= next = next x
err failure >>= next = err failure

abbrev pub ◌>>◌ {ℓ} : {A B : Type ℓ} → Reply A → Reply B → Reply B
m >> k = m >>= λ _. k

pub >>=-eq-ok {ℓ κ} :
    {A : Type ℓ} {B : Type κ} {end : B} (first : Reply A) (next : A → Reply B)
    → (first >>= next) ≡ ok end
    → (x : A) × (first ≡ ok x) × (next x ≡ ok end)
>>=-eq-ok (ok x) next e = (x, refl, e)
>>=-eq-ok (err failure) next e = ground arith

pub ok-injective {ℓ} : {A : Type ℓ} {a b : A} → ok a ≡ ok b → a ≡ b
ok-injective h = cc

pub record Student : Type 0 where
  pub id : ℕ
  pub school_id : ℕ
  pub name : ℕ
  pub mobile_number : Option ℕ
  pub whatsapp_opt_in : Bool

pub record Event : Type 0 where
  pub id : ℕ
  pub school_id : ℕ

pub record Media : Type 0 where
  pub id : ℕ
  pub school_id : ℕ
  pub event_id : ℕ
  pub storage_path : ℕ
  pub thumbnail_path : Option ℕ

pub record Appearance : Type 0 where
  pub student_id : ℕ
  pub media_id : ℕ
  pub event_id : ℕ
  pub confidence : Score
  pub needs_review : Bool

pub data MatchVerdict : Type 0 where
  confirmed rejected added : MatchVerdict

-- A row of `match_corrections`; `reason` says whether it is the student's "reported_not_me".
pub record MatchCorrection : Type 0 where
  pub school_id : ℕ
  pub media_id : ℕ
  pub student_id : ℕ
  pub event_id : ℕ
  pub verdict : MatchVerdict
  pub corrected_by : Option ℕ
  pub reported_not_me : Bool
  pub resolves_review : Bool

pub record DownloadRecord : Type 0 where
  pub school_id : ℕ
  pub media_id : ℕ
  pub event_id : ℕ
  pub actor_user_id : ℕ
  pub actor_role : ℕ
  pub subject_student_id : Option ℕ

pub record Tables : Type 0 where
  pub matches : List MatchRecord
  pub corrections : List MatchCorrection
  pub students : List Student
  pub events : List Event
  pub media : List Media
  pub downloads : List DownloadRecord

abbrev pub or_not_found {ℓ} : {A : Type ℓ} → Option A → Reply A
or_not_found none = err not_found
or_not_found (some a) = ok a

-- The reads by id, within one school, and the `_require_...` helpers of the services.
abbrev pub get_student : ℕ → ℕ → Tables → Option Student
get_student school_id id db = find (λ s. s.id == id && s.school_id == school_id) db.students

abbrev pub get_event : ℕ → ℕ → Tables → Option Event
get_event school_id id db = find (λ e. e.id == id && e.school_id == school_id) db.events

abbrev pub get_media : ℕ → ℕ → Tables → Option Media
get_media school_id id db = find (λ m. m.id == id && m.school_id == school_id) db.media

unfoldable pub require_student : ℕ → ℕ → Tables → Reply Student
require_student school_id id db = or_not_found (get_student school_id id db)

unfoldable pub require_event : ℕ → ℕ → Tables → Reply Event
require_event school_id id db = or_not_found (get_event school_id id db)

unfoldable pub require_media : ℕ → ℕ → Tables → Reply Media
require_media school_id id db = or_not_found (get_media school_id id db)
