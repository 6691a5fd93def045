-- ===== src/Shared/Publisher.antt =====
-- `EventPublisher` of shared/infrastructure/events/publisher.py. Handlers are compared by a test of
-- equality, and the table of handlers is a function of the type of an event, which is the empty list at
-- first. What a handler does to the world is a parameter.
use cadencia_platform.Base.{
  ◌≡◌, refl, Bool, List, [], ◌∷◌, ◌++◌, if◌then◌else◌, ok, Action, Text, text_eq, arith,
}

abbrev pub Registry : Type 0 → Type 0
Registry H = Text → List H

-- `defaultdict(list)`.
abbrev pub no_handlers : {H : Type 0} → Registry H
no_handlers event_type = []

unfoldable pub subscribe : {H : Type 0} → Text → H → Registry H → Registry H
unfolding text_eq
subscribe event_type h table t = if text_eq t event_type then table t ++ h ∷ [] else table t

-- `list.remove`: the first occurrence, and nothing when there is none.
unfoldable pub remove : {H : Type 0} → (H → H → Bool) → H → List H → List H
remove same h [] = []
remove same h (k ∷ ks) = if same k h then ks else k ∷ remove same h ks

unfoldable pub unsubscribe : {H : Type 0} → (H → H → Bool) → Text → H → Registry H → Registry H
unfolding text_eq remove
unsubscribe same event_type h table t =
    if text_eq t event_type then remove same h (table t) else table t

module _ {H E S : Type 0} (handle : H → E → Action S (Unit {0})) where
  -- The loop of `publish`: an exception is logged, what was done before it stays, and the next
  -- handler is called.
  unfoldable pub dispatch : List H → E → S → S
  dispatch [] e s = s
  dispatch (h ∷ hs) e s = dispatch hs e (handle h e s).1

  unfoldable pub publish : (E → Text) → Registry H → E → Action S (Unit {0})
  unfolding dispatch
  publish type_of table e s = (ok tt, dispatch (table (type_of e)) e s)

  unfoldable pub publish_many : (E → Text) → Registry H → List E → S → S
  unfolding publish
  publish_many type_of table [] s = s
  publish_many type_of table (e ∷ es) s =
      publish_many type_of table es (publish type_of table e s).1

  dispatch-++ :
      (hs ks : List H) (e : E) (s : S) → dispatch (hs ++ ks) e s ≡ dispatch ks e (dispatch hs e s)
  unfolding dispatch
  dispatch-++ [] ks e s = refl
  dispatch-++ (h ∷ hs) ks e s = dispatch-++ hs ks e (handle h e s).1

  -- A handler that is subscribed last runs last: on an event of its type, after all others whatever they
  -- raised, and never on an event of another type. Publishing itself does not raise.
  publish-subscribe :
      (type_of : E → Text) (table : Registry H) (t : Text) (h : H) (e : E) (s : S)
      → publish type_of (subscribe t h table) e s ≡ (
          let (r, others) = publish type_of table e s in
          (ok tt, if text_eq (type_of e) t then (handle h e others).1 else others))
  unfolding publish subscribe dispatch
  publish-subscribe type_of table t h e s = grind (arith, dispatch-++)

  dispatch_invariant :
      (P : S → Type 0)
      → ((h : H) (e : E) (s : S) → P s → P (handle h e s).1)
      → (hs : List H) (e : E) (s : S) → P s
      → P (dispatch hs e s)
  unfolding dispatch
  dispatch_invariant P keeps [] e s p = p
  dispatch_invariant P keeps (h ∷ hs) e s p = dispatch_invariant P keeps hs e _ (keeps h e s p)

  -- What every handler keeps, publishing keeps.
  pub publish_many_invariant :
      (P : S → Type 0)
      → ((h : H) (e : E) (s : S) → P s → P (handle h e s).1)
      → (type_of : E → Text) (table : Registry H) (es : List E) (s : S) → P s
      → P (publish_many type_of table es s)
  unfolding publish_many publish
  publish_many_invariant P keeps type_of table [] s p = p
  publish_many_invariant P keeps type_of table (e ∷ es) s p =
      publish_many_invariant P keeps type_of table es _
        (dispatch_invariant P keeps (table (type_of e)) e s p)
