-- ===== src/Session/Images.antt =====
-- crates/arcc-core/src/session.rs, `prune_images`: how many screenshots a request carries.
use mathlib.Core.List.{reverse, reverse-cons, reverse-append, reverse-reverse}
use arcc.Base.{
  ℕ, ◌+◌, ◌-◌, ◌≤◌, ◌≡◌, refl, false, List, [], ◌∷◌, ◌++◌, arith, suc, ltb, ap, ◌∙◌, inl, inr,
  Bool-cases, keep_if-append, length-append, if◌then◌else◌, min, length, keep_if,
}
use arcc.Base.Text.{Text, codes, contains}
use arcc.Model.Types.{ChatMessage, has_images}
use arcc.Session.{Session}

abbrev omitted : Text
omitted = codes "[image omitted]"

-- An older message loses its images and is marked once.
unfoldable pub omit_images : ChatMessage → ChatMessage
unfolding contains
omit_images m = record m {
  images = [];
  content = if contains omitted m.content then m.content else m.content ++ (32 ∷ omitted);
}

-- The loop of `prune_images`, over the messages from the newest to the oldest.
unfoldable pub prune_from : ℕ → ℕ → List ChatMessage → List ChatMessage
unfolding omit_images has_images
prune_from keep_last seen [] = []
prune_from keep_last seen (m ∷ ms) =
    if has_images m
    then (if ltb keep_last (suc seen) then omit_images m else m)
      ∷ prune_from keep_last (suc seen) ms
    else m ∷ prune_from keep_last seen ms

unfoldable pub prune_images : Session → ℕ → Session
unfolding prune_from
prune_images s keep_last = record s {
  messages = reverse (prune_from keep_last 0 (reverse s.messages));
}

abbrev pub image_count : List ChatMessage → ℕ
image_count ms = length (keep_if has_images ms)

image_count-append :
    (xs ys : List ChatMessage) → image_count (xs ++ ys) ≡ image_count xs + image_count ys
image_count-append xs ys =
    rw (keep_if-append has_images xs ys)
      (length-append (keep_if has_images xs) (keep_if has_images ys))

image_count-reverse : (ms : List ChatMessage) → image_count (reverse ms) ≡ image_count ms
image_count-reverse [] = refl
image_count-reverse (m ∷ ms) =
    rw (reverse-cons m ms)
      (ground (arith, image_count-append (reverse ms) (m ∷ []), image_count-reverse ms))

has_images-omit_images : (m : ChatMessage) → has_images (omit_images m) ≡ false
unfolding has_images omit_images
has_images-omit_images m = refl

prune_from-image_count :
    (keep_last seen : ℕ) (ms : List ChatMessage)
    → image_count (prune_from keep_last seen ms) ≡ min (keep_last - seen) (image_count ms)
unfolding prune_from
prune_from-image_count keep_last seen [] = omega arith
prune_from-image_count keep_last seen (m ∷ ms) = ground (
  arith,
  has_images-omit_images m,
  prune_from-image_count keep_last (suc seen) ms,
  prune_from-image_count keep_last seen ms,
)

-- After pruning, the number of messages with images is the smaller of `keep_last` and the number
-- before.
pub prune_images-image_count :
    (s : Session) (keep_last : ℕ)
    → image_count (prune_images s keep_last).messages ≡ min keep_last (image_count s.messages)
unfolding prune_images
prune_images-image_count s keep_last = omega (
  arith,
  image_count-reverse (prune_from keep_last 0 (reverse s.messages)),
  prune_from-image_count keep_last 0 (reverse s.messages),
  image_count-reverse s.messages,
)

length-prune_from :
    (keep_last seen : ℕ) (ms : List ChatMessage) → length (prune_from keep_last seen ms) ≡ length ms
unfolding prune_from
length-prune_from keep_last seen [] = refl
length-prune_from keep_last seen (m ∷ ms) =
    ground (arith, length-prune_from keep_last (suc seen) ms, length-prune_from keep_last seen ms)

prune_from-append :
    (keep_last seen : ℕ) (newer older : List ChatMessage)
    → seen + image_count newer ≤ keep_last
    → prune_from keep_last seen (newer ++ older)
      ≡ newer ++ prune_from keep_last (seen + image_count newer) older
unfolding prune_from
prune_from-append keep_last seen [] older h = ap (λ n. prune_from keep_last n older) (omega arith)
prune_from-append keep_last seen (m ∷ newer) older h = elim (Bool-cases (has_images m)) [
  | inl shown ↦ ground (arith, prune_from-append keep_last (suc seen) newer older)
  | inr hidden ↦ ground (arith, prune_from-append keep_last seen newer older)
]

length-reverse : (ms : List ChatMessage) → length (reverse ms) ≡ length ms
length-reverse [] = refl
length-reverse (m ∷ ms) =
    rw (reverse-cons m ms) (omega (arith, length-append (reverse ms) (m ∷ []), length-reverse ms))

-- The newest messages are untouched as far back as they hold at most `keep_last` images, and no
-- message is dropped before them.
pub prune_images-newest :
    (s : Session) (keep_last : ℕ) (older newer : List ChatMessage)
    → s.messages ≡ older ++ newer
    → image_count newer ≤ keep_last
    → (older' : List ChatMessage) × ((prune_images s keep_last).messages ≡ older' ++ newer)
      × (length older' ≡ length older)
unfolding prune_images
prune_images-newest s keep_last older newer e h =
    let left = prune_from keep_last (0 + image_count (reverse newer)) (reverse older) in
    (
      reverse left,
      rw (e, reverse-append older newer)
          (rw
            (prune_from-append keep_last 0 (reverse newer) (reverse older)
              (omega (arith, image_count-reverse newer)))
            (reverse-append (reverse newer) left
              ∙ ap (λ r. reverse left ++ r) (reverse-reverse newer))),
      length-reverse left ∙ (length-prune_from keep_last _ (reverse older) ∙ length-reverse older),
    )
