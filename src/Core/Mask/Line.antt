-- ===== src/Core/Mask/Line.antt =====
-- What `mask_line` and `redact_text` hide.
use mathlib.Core.List.{Memᴰ}
use shellflow.Base.{false, List, [], ◌∷◌, ◌≡◌, ◌≢◌, refl, subst, Text, is_empty, if◌then◌else◌}
use shellflow.Base.Text.{contains, replace}
use shellflow.Base.Text.Replace.{contains-replace_self, contains-replace_other}
use shellflow.Core.Mask.Redacts.{IsPlain}
use shellflow.Core.Mask.Shorts.{contains-mask_shorts}
use shellflow.Core.Mask.Stream.{SecretMasker, redact_text}
use shellflow.Core.Mask.{mask, mask_each, mask_line}

-- One round, which replaces the value unless it is empty.
mask_once : Text → Text → Text
mask_once out secret = if is_empty secret then out else replace secret mask out

module _ (t : Text) (ne : t ≢ []) (plain : IsPlain t) where
  contains-mask_once :
      (out secret : Text) → contains t out ≡ false → contains t (mask_once out secret) ≡ false
  unfolding mask_once
  contains-mask_once out [] h = h
  contains-mask_once out (c ∷ s) h = contains-replace_other b'*' (c ∷ s) t out ne plain h

  contains-mask_once_self : (out : Text) → contains t (mask_once out t) ≡ false
  unfolding mask_once
  contains-mask_once_self out = once t ne plain
    where
      once : (s : Text) → s ≢ [] → IsPlain s → contains s (mask_once out s) ≡ false
      once [] n l = absurd (n refl)
      once (c ∷ s) n l = contains-replace_self b'*' (c ∷ s) out n l

  -- Once gone, a plain text does not come back.
  contains-mask_each :
      (masks : List Text) (out : Text)
      → contains t out ≡ false
      → contains t (mask_each out masks) ≡ false
  unfolding mask_each mask_once
  contains-mask_each [] out h = h
  contains-mask_each (secret ∷ masks) out h =
      contains-mask_each masks (mask_once out secret) (contains-mask_once out secret h)

  contains-mask_each_member :
      (masks : List Text) (out : Text) → Memᴰ t masks → contains t (mask_each out masks) ≡ false
  unfolding mask_each mask_once
  contains-mask_each_member [] out d = elim d [ ]
  contains-mask_each_member (secret ∷ masks) out (Memᴰ.head e) =
      contains-mask_each masks (mask_once out secret)
        (subst (λ s. contains t (mask_once out s) ≡ false) e (contains-mask_once_self out))
  contains-mask_each_member (secret ∷ masks) out (Memᴰ.tail d) =
      contains-mask_each_member masks (mask_once out secret) d

-- A masked line holds none of the values of the mask set that are not empty and free of `*`, whatever
-- the order of the set and whatever other values are in it.
pub contains-mask_line :
    (line secret : Text) (masks : List Text)
    → Memᴰ secret masks
    → secret ≢ []
    → IsPlain secret
    → contains secret (mask_line line masks) ≡ false
unfolding mask_line
contains-mask_line line secret [] d ne plain = elim d [ ]
contains-mask_line line secret (m ∷ masks) d ne plain =
    contains-mask_each_member secret ne plain (m ∷ masks) line d

-- The text that `redact_text` returns holds no value of the masker's masks that is not empty and free
-- of `*`, although the rules for short values rewrite it further.
pub contains-redact_text :
    (m : SecretMasker) (text secret : Text)
    → Memᴰ secret m.masks
    → secret ≢ []
    → IsPlain secret
    → contains secret (redact_text m text) ≡ false
unfolding redact_text
contains-redact_text m text secret d ne plain =
    contains-mask_shorts secret ne plain m.shorts (mask_line text m.masks)
      (contains-mask_line text secret m.masks d ne plain)
