-- ===== src/Common/Logger/Emitted.antt =====
-- The whole life of an event, and the JSON object that a reader finds on the stream after it.
use mathlib.Core.List.{append_assoc, append-nil}
use uaop.Base.{
  ◌<◌, arith, Bool-cases, inl, inr, if◌then◌else◌, ◌≡◌, refl, sym, ◌∙◌, ap, true, false, List, [],
  ◌∷◌, ◌++◌, map, some, ltb,
}
use uaop.Base.Lists.{All, length}
use uaop.Base.Text.{Bytes, codes}
use uaop.Common.Logger.{
  LogLevel, level_code, level_name, Value, LogEvent, Logger, new_event, set_msg, set_vehicle,
  set_corr, add_field, move, show_event, emission, emit, destroy,
}
use uaop.Common.Logger.Escape.{Printable}
use uaop.Common.Logger.Lines.{line_feeds, line_feeds-Printable, show_event-Printable}
use uaop.Common.Logger.Lifecycle.{
  Call, with_msg, with_vehicle, with_corr, with_field, emit_now, moved, perform, live,
}
use uaop.Common.Logger.Members.{IsFinite, scalar_of, optional, read_object-show_event}
use uaop.Common.Logger.Object.{string, Members, read_object}

module _ {D : Type 0} where
  -- The calls before the event is emitted; later ones come too late.
  abbrev pub in_time : List (Call D) → List (Call D)
  in_time [] = []
  in_time (with_msg s ∷ cs) = with_msg s ∷ in_time cs
  in_time (with_vehicle s ∷ cs) = with_vehicle s ∷ in_time cs
  in_time (with_corr s ∷ cs) = with_corr s ∷ in_time cs
  in_time (with_field k v ∷ cs) = with_field k v ∷ in_time cs
  in_time (emit_now ∷ cs) = []
  in_time (moved ∷ cs) = in_time cs

  -- The text of the last call of a kind, and before there is one a given text.
  abbrev pub last_msg : Bytes → List (Call D) → Bytes
  last_msg s [] = s
  last_msg s (with_msg t ∷ cs) = last_msg t cs
  last_msg s (with_vehicle t ∷ cs) = last_msg s cs
  last_msg s (with_corr t ∷ cs) = last_msg s cs
  last_msg s (with_field k v ∷ cs) = last_msg s cs
  last_msg s (emit_now ∷ cs) = last_msg s cs
  last_msg s (moved ∷ cs) = last_msg s cs

  abbrev pub last_vehicle : Bytes → List (Call D) → Bytes
  last_vehicle s [] = s
  last_vehicle s (with_msg t ∷ cs) = last_vehicle s cs
  last_vehicle s (with_vehicle t ∷ cs) = last_vehicle t cs
  last_vehicle s (with_corr t ∷ cs) = last_vehicle s cs
  last_vehicle s (with_field k v ∷ cs) = last_vehicle s cs
  last_vehicle s (emit_now ∷ cs) = last_vehicle s cs
  last_vehicle s (moved ∷ cs) = last_vehicle s cs

  abbrev pub last_corr : Bytes → List (Call D) → Bytes
  last_corr s [] = s
  last_corr s (with_msg t ∷ cs) = last_corr s cs
  last_corr s (with_vehicle t ∷ cs) = last_corr s cs
  last_corr s (with_corr t ∷ cs) = last_corr t cs
  last_corr s (with_field k v ∷ cs) = last_corr s cs
  last_corr s (emit_now ∷ cs) = last_corr s cs
  last_corr s (moved ∷ cs) = last_corr s cs

  abbrev pub fields_of : List (Call D) → List (Bytes × Value D)
  fields_of [] = []
  fields_of (with_msg t ∷ cs) = fields_of cs
  fields_of (with_vehicle t ∷ cs) = fields_of cs
  fields_of (with_corr t ∷ cs) = fields_of cs
  fields_of (with_field k v ∷ cs) = (k, v) ∷ fields_of cs
  fields_of (emit_now ∷ cs) = fields_of cs
  fields_of (moved ∷ cs) = fields_of cs

  -- What the calls make of an event.
  abbrev built : LogEvent D → List (Call D) → LogEvent D
  built e cs = record e {
    msg = last_msg e.msg cs;
    vehicle = last_vehicle e.vehicle cs;
    corr = last_corr e.corr cs;
    fields = e.fields ++ fields_of cs;
  }

  built-nil : (e : LogEvent D) → built e [] ≡ e
  built-nil e = ap (λ fields. record e { fields = fields }) (append-nil e.fields)

  built-field :
      (e : LogEvent D) (k : Bytes) (v : Value D) (cs : List (Call D))
      → built (record e { fields = e.fields ++ (k, v) ∷ [] }) cs ≡ built e (with_field k v ∷ cs)
  built-field e k v cs =
      ap (λ fields. record (built e cs) { fields = fields })
        (append_assoc e.fields ((k, v) ∷ []) (fields_of cs))

module _ {D : Type 0} (show_double : D → Bytes) (ts : Bytes) (owner : Logger) where
  emit_again :
      (e : LogEvent D) (out : Bytes)
      → e.emitted ≡ true
      → emit show_double ts (some owner) e out ≡ (e, out)
  unfolding emit
  emit_again e out h = simp h refl

  emit_first :
      (e : LogEvent D) (out : Bytes)
      → e.emitted ≡ false
      → emit show_double ts (some owner) e out
        ≡ (record e { emitted = true }, out ++ emission show_double ts (some owner) e)
  unfolding emit
  emit_first e out h = simp h refl

  destroy_first :
      (e : LogEvent D) (out : Bytes)
      → e.emitted ≡ false
      → destroy show_double ts (some owner) e out ≡ out ++ emission show_double ts (some owner) e
  unfolding destroy
  destroy_first e out h = simp h refl

  -- Moving keeps the event, and what it is moved from writes nothing.
  perform-moved :
      (e : LogEvent D) (out : Bytes) → perform show_double ts owner moved e out ≡ (e, out)
  unfolding perform move destroy
  perform-moved e out = refl

  -- An emitted event writes nothing more.
  live_emitted :
      (cs : List (Call D)) (e : LogEvent D) (out : Bytes)
      → e.emitted ≡ true
      → live show_double ts owner cs e out ≡ out
  unfolding live perform set_msg set_vehicle set_corr add_field
  live_emitted [] e out h = unfold destroy in simp h refl
  live_emitted (with_msg s ∷ cs) e out h = live_emitted cs (record e { msg = s }) out h
  live_emitted (with_vehicle s ∷ cs) e out h = live_emitted cs (record e { vehicle = s }) out h
  live_emitted (with_corr s ∷ cs) e out h = live_emitted cs (record e { corr = s }) out h
  live_emitted (with_field k v ∷ cs) e out h =
      live_emitted cs (record e { fields = e.fields ++ (k, v) ∷ [] }) out h
  live_emitted (emit_now ∷ cs) e out h =
      ap (λ r. live show_double ts owner cs r.0 r.1) (emit_again e out h) ∙ live_emitted cs e out h
  live_emitted (moved ∷ cs) e out h =
      ap (λ r. live show_double ts owner cs r.0 r.1) (perform-moved e out) ∙ live_emitted cs e out h

  live-built :
      (cs : List (Call D)) (e : LogEvent D) (out : Bytes)
      → e.emitted ≡ false
      → live show_double ts owner cs e out
        ≡ out ++ emission show_double ts (some owner) (built e (in_time cs))
  unfolding live perform set_msg set_vehicle set_corr add_field
  live-built [] e out h =
      destroy_first e out h
      ∙ ap (λ d. out ++ emission show_double ts (some owner) d) (sym (built-nil e))
  live-built (with_msg s ∷ cs) e out h = live-built cs (record e { msg = s }) out h
  live-built (with_vehicle s ∷ cs) e out h = live-built cs (record e { vehicle = s }) out h
  live-built (with_corr s ∷ cs) e out h = live-built cs (record e { corr = s }) out h
  live-built (with_field k v ∷ cs) e out h =
      live-built cs (record e { fields = e.fields ++ (k, v) ∷ [] }) out h
      ∙ ap (λ d. out ++ emission show_double ts (some owner) d) (built-field e k v (in_time cs))
  live-built (emit_now ∷ cs) e out h =
      ap (λ r. live show_double ts owner cs r.0 r.1) (emit_first e out h)
      ∙ live_emitted cs (record e { emitted = true })
          (out ++ emission show_double ts (some owner) e) refl
      ∙ ap (λ d. out ++ emission show_double ts (some owner) d) (sym (built-nil e))
  live-built (moved ∷ cs) e out h =
      ap (λ r. live show_double ts owner cs r.0 r.1) (perform-moved e out) ∙ live-built cs e out h

  -- However an event is built, moved and emitted, by the time it is destroyed it has written one line
  -- and its line feed if its level reaches the logger's minimum, and not a byte otherwise. The line
  -- holds no other line feed, whatever bytes its texts hold, as long as the printing of doubles
  -- yields printable text.
  pub live-one_line :
      (cs : List (Call D)) (level : LogLevel) (event out : Bytes)
      → ((d : D) → Printable (show_double d))
      → (line : Bytes) × (line_feeds line ≡ 0)
        × (0 < length line)
        × (live show_double ts owner cs (new_event level event) out ≡ (
            if ltb (level_code level) (level_code owner.min_level)
            then out
            else out ++ (line ++ codes "\n")))
  unfolding new_event emission show_event
  live-one_line cs level event out doubles =
      let final : LogEvent D = built (new_event level event) (in_time cs) in
      (
        show_event show_double ts owner final,
        line_feeds-Printable (show_event show_double ts owner final)
            (show_event-Printable show_double doubles ts owner final),
        omega arith,
        live-built cs (new_event level event) out refl
            ∙ elim (Bool-cases (ltb (level_code level) (level_code owner.min_level))) [
              | inl suppressed ↦ rw suppressed (append-nil out)
              | inr enabled ↦ rw enabled refl
            ],
      )

  -- The members of the object that a life of calls leads to.
  abbrev pub told : LogLevel → Bytes → List (Call D) → Members
  told level event cs =
      (codes "ts", string ts)
      ∷ (codes "lvl", string (level_name level))
      ∷ (codes "svc", string owner.service)
      ∷ (optional (codes "vehicle") (last_vehicle [] cs)
          ++ (optional (codes "corr") (last_corr [] cs)
              ++ ((codes "event", string event)
                  ∷ (optional (codes "msg") (last_msg [] cs)
                      ++ map (λ (key, v). (key, scalar_of show_double v)) (fields_of cs)))))

  -- However an event is built, moved and emitted, if its level reaches the logger's minimum then,
  -- by the time it is destroyed, the stream has grown by one JSON object and a line feed. Whatever
  -- bytes the texts hold, a reader gets back from it the time, the level, the service, the event,
  -- every field that was added before the event was emitted, in that order, and the vehicle,
  -- correlation and message set last before that, unless they are empty. The doubles among these
  -- fields must be written as numbers of JSON, as finite ones are.
  pub live-read_object :
      (cs : List (Call D)) (level : LogLevel) (event out : Bytes)
      → All (IsFinite show_double) (fields_of (in_time cs))
      → ltb (level_code level) (level_code owner.min_level) ≡ false
      → (line : Bytes) × (live show_double ts owner cs (new_event level event) out ≡ out ++ line)
        × (read_object line ≡ some (told level event (in_time cs), codes "\n"))
  unfolding new_event emission
  live-read_object cs level event out finite enabled =
      let final : LogEvent D = built (new_event level event) (in_time cs) in
      (
        show_event show_double ts owner final ++ codes "\n",
        live-built cs (new_event level event) out refl ∙ rw enabled refl,
        read_object-show_event show_double ts owner final (codes "\n") finite,
      )
