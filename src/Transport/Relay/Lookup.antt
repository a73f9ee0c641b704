-- ===== src/Transport/Relay/Lookup.antt =====
-- The map of sessions: what a write and an insertion leave for a lookup.
use folk_around.Prelude.{[], ◌∷◌, false, some, ◌≡◌, refl, arith}
use folk_around.Text.{Text, text_eq}
use folk_around.Text.Laws.{text_eq_iff}
use folk_around.Transport.Relay.{Session, Sessions, get_session, set_session, or_insert}

pub get_session-set_session :
    (p : Text) (s t : Session) (ss : Sessions)
    → get_session p ss ≡ some t
    → get_session p (set_session p s ss) ≡ some s
unfolding get_session set_session
get_session-set_session p s t [] h = ground (arith, h)
get_session-set_session p s t ((q, u) ∷ ss) h = ground (arith, get_session-set_session p s t ss)

pub get_session-set_other :
    (p q : Text) (s : Session) (ss : Sessions)
    → text_eq p q ≡ false
    → get_session q (set_session p s ss) ≡ get_session q ss
unfolding get_session set_session
get_session-set_other p q s [] h = refl
get_session-set_other p q s ((r, u) ∷ ss) h =
    ground
      (arith, get_session-set_other p q s ss, text_eq_iff r p, text_eq_iff r q, text_eq_iff p q)

pub get_session-or_insert :
    (p q : Text) (s t : Session) (ss : Sessions)
    → get_session q ss ≡ some t
    → get_session q (or_insert p s ss) ≡ some t
unfolding get_session or_insert
get_session-or_insert p q s t [] h = ground (arith, h)
get_session-or_insert p q s t ((r, u) ∷ ss) h = ground (arith, get_session-or_insert p q s t ss)
