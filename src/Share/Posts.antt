-- ===== src/Share/Posts.antt =====
-- The messages of a call: those of its attempts, one after another.
use ml_service.Prelude.{
  ℕ, ◌-◌, ◌≡◌, refl, sym, ◌∙◌, ap, Bool, true, false, inl, inr, Bool-cases, Option, none, some,
  List, [], ◌∷◌, ◌++◌, append-nil, append_assoc, ◌==◌, All, All-append, if◌then◌else◌,
}
use ml_service.Backend.{Reply, ok, err, Media}
use ml_service.SendLog.{Instant, is_sent, SendRow}
use ml_service.Variant.{make_whatsapp_variant}
use ml_service.Share.{
  ShareSettings, Message, Sharing, Outside, ItemResult, SendRequest, signed, uploaded,
  prepare_image_url, record_send, handed, delivered, attempt, send_loop, Delivery, accepted,
  declined, escaped, and_more,
}

-- Some messages were posted after the old ones, and each of them satisfies `Q`.
abbrev pub Posts : (Message → Type 0) → List Message → List Message → Type 0
Posts Q before after = (new : List Message) × (after ≡ before ++ new) × All Q new

module _ (Q : Message → Type 0) where
  pub Posts-nil : (before after : List Message) → after ≡ before → Posts Q before after
  Posts-nil before after same = ([], same ∙ sym (append-nil before), tt)

  pub Posts-trans : (a b c : List Message) → Posts Q a b → Posts Q b c → Posts Q a c
  Posts-trans a b c (xs, e, qs) (ys, f, rs) = (
    xs ++ ys,
    f ∙ (ap (λ (o : List Message). o ++ ys) e ∙ append_assoc a xs ys),
    All-append Q xs ys qs rs,
  )

module _ {Image : Type 0} (p : Outside Image) (s : ShareSettings) (now : Instant)
    (req : SendRequest) where
  record_send-outbox :
      (row : SendRow) (w : Sharing) → (record_send p s now req row w).outbox ≡ w.outbox
  unfolding record_send
  record_send-outbox row w = elim (Bool-cases (p.write row w.log)) [
    | inl written ↦ rw written refl
    | inr lost ↦ rw lost refl
  ]

  module _ (Q : Message → Type 0) where
    pub attempt-Posts :
        (message : ℕ → Message) (sender : ℕ) (media : Media) (over : Bool) (w : Sharing)
        → ((u : ℕ) → p.sign req.school_id media.id ≡ some u → Q (message u))
        → Posts Q w.outbox (attempt p s now req message sender media over w).1.outbox
    unfolding attempt prepare_image_url
    attempt-Posts message sender media true w allowed =
        Posts-nil Q w.outbox _ (record_send-outbox _ w)
    attempt-Posts message sender media false w allowed =
        at_image (make_whatsapp_variant p.encoder s.variant media.storage_path)
      where
        at_answer :
            (u : ℕ) (o : Delivery)
            → Q (message u)
            → Posts Q w.outbox (handed p s now req sender media (message u) o w).1.outbox
        at_answer u declined q = Posts-nil Q w.outbox _ (record_send-outbox _ w)
        at_answer u escaped q = Posts-nil Q w.outbox w.outbox refl
        at_answer u (accepted n) q = (
          message u ∷ [],
          record_send-outbox _ (record w { outbox = w.outbox ++ message u ∷ [] }),
          (q, tt),
        )

        at_sign :
            (o : Option ℕ)
            → p.sign req.school_id media.id ≡ o
            → Posts Q w.outbox
                (delivered p s now req message sender media (signed p s now req o) w).1.outbox
        at_sign none e = Posts-nil Q w.outbox _ (record_send-outbox _ w)
        at_sign (some u) e = at_answer u (p.deliver (message u) w.outbox) (allowed u e)

        at_image :
            (o : Option Image)
            → Posts Q w.outbox
                (delivered p s now req message sender media
                  (uploaded p s now req media o)
                  w).1.outbox
        at_image none = Posts-nil Q w.outbox _ (record_send-outbox _ w)
        at_image (some variant) = elim (Bool-cases (p.upload req.school_id media.id variant)) [
          | inl kept ↦ rw kept (at_sign (p.sign req.school_id media.id) refl)
          | inr lost ↦ rw lost (Posts-nil Q w.outbox _ (record_send-outbox _ w))
        ]

    pub send_loop-Posts :
        (send : Media → Bool → Sharing → Reply ItemResult × Sharing) (targets : List Media)
        → All
            (λ media. (over : Bool) (w : Sharing) → Posts Q w.outbox (send media over w).1.outbox)
            targets
        → (left : ℕ) (w : Sharing)
        → Posts Q w.outbox (send_loop p s now req send targets left w).1.outbox
    unfolding send_loop
    send_loop-Posts send [] one left w = Posts-nil Q w.outbox w.outbox refl
    send_loop-Posts send (media ∷ targets) one left w =
        at_first (send media (left == 0) w) (one.0 (left == 0) w) (λ r w1.
          send_loop-Posts send targets one.1 (if is_sent r.status then left - 1 else left) w1)
      where
        at_first :
            (x : Reply ItemResult × Sharing)
            → Posts Q w.outbox x.1.outbox
            → ((r : ItemResult) (w1 : Sharing)
                → Posts Q w1.outbox
                    (send_loop p s now req send targets
                      (if is_sent r.status then left - 1 else left)
                      w1).1.outbox)
            → Posts Q w.outbox
                (and_more p s now req x (λ r w1.
                  send_loop p s now req send targets
                    (if is_sent r.status then left - 1 else left)
                    w1)).1.outbox
        at_first (err e, w1) first next = first
        at_first (ok r, w1) first next = Posts-trans Q w.outbox w1.outbox _ first (next r w1)
