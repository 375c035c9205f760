-- ===== src/Connection/Recovery.antt =====
-- connection.go: what a reconnect sends again, and the publishes that wait for it.
pub mod Idle
pub mod Unsent
pub mod Outage
pub mod Runs
pub mod Resent
use realtime_go.Common.{
  ℕ, ◌≡◌, refl, sym, ap, ap₂, ◌∙◌, Option, none, some, List, [], ◌∷◌, ◌++◌, Bytes, ◌==◌, ==_iff,
  append_assoc, if◌then◌else◌,
}
use realtime_go.Wire.{ClientFrame, PublishFrame, publish}
use realtime_go.Connection.{Connection, OutstandingPublish, Effect, write_frame, bump}
use realtime_go.Connection.Publishes.{send_publish, write_publish, send_all}
use realtime_go.Connection.Frame.{send_publish-Same}

-- A publish without the id of the request that carries it.
abbrev pub sent_frame : PublishFrame → PublishFrame
sent_frame f = record f { id = 0 }

abbrev pub published : ℕ → ClientFrame → List PublishFrame
published ws (publish f) = sent_frame f ∷ []
published ws f = []

abbrev pub published_by : ℕ → Effect → List PublishFrame
published_by ws (write_frame s f) = if s == ws then published ws f else []
published_by ws e = []

-- The publishes that are written to a socket.
abbrev pub written_to : ℕ → List Effect → List PublishFrame
written_to ws [] = []
written_to ws (e ∷ out) = published_by ws e ++ written_to ws out

pub written_to-append :
    (ws : ℕ) (xs ys : List Effect) → written_to ws (xs ++ ys) ≡ written_to ws xs ++ written_to ws ys
written_to-append ws [] ys = refl
written_to-append ws (e ∷ xs) ys =
    ap (λ out. published_by ws e ++ out) (written_to-append ws xs ys)
    ∙ sym (append_assoc (published_by ws e) (written_to ws xs) (written_to ws ys))

write_publish-written :
    (ws id : ℕ) (key : Bytes) (f : PublishFrame) (o : Option ℕ) (c : Connection)
    → o ≡ some ws
    → written_to ws (write_publish o id key f c).1 ≡ sent_frame f ∷ []
write_publish-written ws id key f none c h = absurd (cc h)
write_publish-written ws id key f (some s) c h =
    let is_it : s ≡ ws = cc h in rw ((==_iff s ws).1 is_it) refl

send_publish-written :
    (ws : ℕ) (key : Bytes) (f : PublishFrame) (c : Connection)
    → c.socket ≡ some ws
    → written_to ws (send_publish key f c).1 ≡ sent_frame f ∷ []
unfolding send_publish
send_publish-written ws key f c h = write_publish-written ws (bump c.next_id) key f c.socket _ h

abbrev pub frames_of : List (Bytes × OutstandingPublish) → List PublishFrame
frames_of [] = []
frames_of (e ∷ es) = sent_frame e.1.frame ∷ frames_of es

pub send_all-written :
    (ws : ℕ) (es : List (Bytes × OutstandingPublish)) (c : Connection)
    → c.socket ≡ some ws
    → written_to ws (send_all es c).1 ≡ frames_of es
unfolding send_all
send_all-written ws [] c h = refl
send_all-written ws (e ∷ es) c h =
    written_to-append ws (send_publish e.0 e.1.frame c).1 _
    ∙ ap₂ ◌++◌ (send_publish-written ws e.0 e.1.frame c h)
        (send_all-written ws es _ ((send_publish-Same e.0 e.1.frame c).same_socket ∙ h))
