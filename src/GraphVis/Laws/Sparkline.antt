-- ===== src/GraphVis/Laws/Sparkline.antt =====
-- app/assets/js/oocsi-graphvis.js: what the sparkline of the messages shows.
use oocsi_web.Common.{
  ℕ, zero, suc, ◌-◌, ◌≤◌, String, Bool, ◌||◌, List, [], ◌∷◌, ◌++◌, ◌≡◌, ◌∙◌, refl, sym, ap, arith,
  inl, inr, Bool-cases, if◌then◌else◌, ltb, length, length-append, str_eq,
}
use mathlib.Core.List.{append-nil, append_assoc}
use oocsi_web.GraphVis.Widgets.{shift_data, push_datum}
use oocsi_web.GraphVis.Screen.{Happening, message, second, another}

abbrev drop : ℕ → List ℕ → List ℕ
drop zero xs = xs
drop (suc k) [] = []
drop (suc k) (x ∷ xs) = drop k xs

-- The last numbers of a list.
unfoldable pub last_of : ℕ → List ℕ → List ℕ
last_of n xs = drop (length xs - n) xs

last_of-all : (n : ℕ) (xs : List ℕ) → length xs ≤ n → last_of n xs ≡ xs
unfolding last_of
last_of-all n xs le =
    let none_over : length xs - n ≡ 0 = omega (arith, le) in ap (λ k. drop k xs) none_over

last_of-cons : (n x : ℕ) (xs : List ℕ) → n ≤ length xs → last_of n (x ∷ xs) ≡ last_of n xs
unfolding last_of
last_of-cons n x xs le =
    let one_more : suc (length xs) - n ≡ suc (length xs - n) = omega (arith, le) in
    ap (λ k. drop k (x ∷ xs)) one_more

length-shift_data : (xs : List ℕ) → length (shift_data xs) ≤ 100
unfolding shift_data
length-shift_data [] = omega arith
length-shift_data (x ∷ xs) = ground (arith, length-shift_data xs)

last_of-shift_data :
    (xs ys : List ℕ) (y : ℕ) → last_of 101 (shift_data xs ++ y ∷ ys) ≡ last_of 101 (xs ++ y ∷ ys)
unfolding shift_data
last_of-shift_data [] ys y = refl
last_of-shift_data (x ∷ xs) ys y = elim (Bool-cases (ltb 100 (length (x ∷ xs)))) [
  | inl e ↦
      let long : 101 ≤ length (xs ++ y ∷ ys) = ground (arith, e, length-append xs (y ∷ ys)) in
      rw (e, shift_data) (last_of-shift_data xs ys y ∙ sym (last_of-cons 101 x (xs ++ y ∷ ys) long))
  | inr e ↦ rw (e, shift_data) refl
]

-- The numbers pushed one after the other.
unfoldable pub push_all : List ℕ → List ℕ → List ℕ
push_all [] shown = shown
push_all (d ∷ ds) shown = push_all ds (push_datum d shown)

pub push_all-last_of :
    (ds shown : List ℕ) → length shown ≤ 101 → push_all ds shown ≡ last_of 101 (shown ++ ds)
unfolding push_all push_datum
push_all-last_of [] shown le =
    sym (last_of-all 101 shown le) ∙ ap (last_of 101) (sym (append-nil shown))
push_all-last_of (d ∷ ds) shown le =
    let short : length (shift_data shown ++ d ∷ []) ≤ 101 =
      omega (arith, length-append (shift_data shown) (d ∷ []), length-shift_data shown) in
    push_all-last_of ds (shift_data shown ++ d ∷ []) short
    ∙ ap (last_of 101) (append_assoc (shift_data shown) (d ∷ []) ds)
    ∙ last_of-shift_data shown ds d

pub push_all-last :
    (ds : List ℕ) (d : ℕ) (shown : List ℕ)
    → push_all (ds ++ d ∷ []) shown ≡ push_datum d (push_all ds shown)
unfolding push_all
push_all-last [] d shown = refl
push_all-last (c ∷ ds) d shown = push_all-last ds d (push_datum c shown)

module _ (to_lower : String → String) (includes : (text part : String) → Bool) where
  -- Whether the channel of a message passes the filter of the picture.
  unfoldable pub is_accepted : (filter channel : String) → Bool
  is_accepted filter ch = str_eq filter "" || includes (to_lower ch) filter

  -- The numbers of messages accepted in the seconds that are over, and in the one that is not.
  unfoldable pub tally : (filter : String) → List Happening → List ℕ × ℕ
  unfolding is_accepted
  tally filter [] = ([], 0)
  tally filter (message ch ∷ hs) =
      let (over, running) = tally filter hs in
      (over, if is_accepted filter ch then suc running else running)
  tally filter (second ∷ hs) = let (over, running) = tally filter hs in (over ++ running ∷ [], 0)
  tally filter (another ∷ hs) = tally filter hs
