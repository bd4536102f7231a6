-- ===== src/Base/Text/Laws.antt =====
-- Lines of a text, and blanks at its end.
use Prim.Native.String.append
use factory_pattern_design.Base.{
  ℕ, String, Char, code, ◌<>◌, Bool, true, false, ◌≡◌, refl, ◌∙◌, ap, List, [], ◌∷◌, ◌==◌, ◌||◌,
  arith, All, ◌++◌,
}
use factory_pattern_design.Base.Text.{
  is_space, split, contains_char, keep_text, rstrip, join, member,
}
use factory_pattern_design.Base.Decimal.Laws.{split-of_lacks}

-- A part without the separator is split off.
pub split-append :
    (k : ℕ) (w s : String) (c : Char)
    → contains_char k w ≡ false
    → (code c == k) ≡ true
    → split k (w <> String.◌∷◌ c s) ≡ w ∷ split k s
unfolding split contains_char
split-append k String.[] s c h e = rw append.nil (rw e refl)
split-append k (String.◌∷◌ d w) s c h e = rw append.cons (ground (arith, split-append k w s c))

-- Lines that are joined are split again.
pub split-join :
    (k : ℕ) (c : Char) (w : String) (ws : List String)
    → (code c == k) ≡ true
    → All (λ v. contains_char k v ≡ false) (w ∷ ws)
    → split k (join (String.◌∷◌ c "") (w ∷ ws)) ≡ w ∷ ws
unfolding join
split-join k c w [] e (h, _) = split-of_lacks k w h
split-join k c w (v ∷ ws) e (h, hs) =
    rw (append.cons, append.nil)
      (split-append k w (join (String.◌∷◌ c "") (v ∷ ws)) c h e
        ∙ ap (λ x. w ∷ x) (split-join k c v ws e hs))

-- Whether there is a blank in the text.
unfoldable pub has_space : String → Bool
has_space String.[] = false
has_space (String.◌∷◌ c s) = is_space c || has_space s

kept : (c : Char) (s : String) → is_space c ≡ false → keep_text c s ≡ String.◌∷◌ c s
kept c String.[] h = rw h refl
kept c (String.◌∷◌ d s) h = refl

append_of_cons : (c : Char) (s t : String) → String.◌∷◌ c (s <> t) ≡ String.◌∷◌ c s <> t
append_of_cons c s t = rw append.cons refl

pub rstrip-append : (s t : String) → has_space s ≡ false → rstrip (s <> t) ≡ s <> rstrip t
unfolding rstrip has_space
rstrip-append String.[] t h = rw (append.nil t, append.nil (rstrip t)) refl
rstrip-append (String.◌∷◌ c s) t h =
    rw (append.cons, rstrip-append s t (ground arith))
      (kept c (s <> rstrip t) (ground arith) ∙ append_of_cons c s (rstrip t))

pub member-append :
    (x : String) (xs ys : List String) → member x (xs ++ ys) ≡ (member x xs || member x ys)
unfolding member
member-append x [] ys = refl
member-append x (y ∷ xs) ys = ground (arith, member-append x xs ys)
