-- ===== src/AdminClient/Pages.antt =====
-- envoy_admin_client.py: what the pages make up together.
use cactus_runner.Prelude.{
  ℕ, zero, suc, ◌+◌, ◌-◌, ◌≤◌, ◌<◌, Bool, true, false, ◌||◌, List, [], ◌∷◌, ◌++◌, some, ◌≡◌,
  Bool-cases, inl, inr, refl, ap, ◌∙◌, arith, length, length-append, leb, ltb,
}
use cactus_runner.Exec.{ok}
use cactus_runner.AdminClient.{Server, page_loop, get_all_site_controls}

module _ {ℓ} {A : Type ℓ} where
  unfoldable pub take : ℕ → List A → List A
  take zero xs = []
  take (suc n) [] = []
  take (suc n) (x ∷ xs) = x ∷ take n xs

  unfoldable pub drop : ℕ → List A → List A
  drop zero xs = xs
  drop (suc n) [] = []
  drop (suc n) (x ∷ xs) = drop n xs

  drop-drop : (m n : ℕ) (xs : List A) → drop (m + n) xs ≡ drop n (drop m xs)
  unfolding drop
  drop-drop zero n xs = let e : 0 + n ≡ n = omega arith in rw e refl
  drop-drop (suc m) n [] = let e : suc m + n ≡ suc (m + n) = omega arith in rw e (none_left n)
    where
      none_left : (k : ℕ) → [] ≡ drop k []
      none_left zero = refl
      none_left (suc k) = refl
  drop-drop (suc m) n (x ∷ xs) =
      let e : suc m + n ≡ suc (m + n) = omega arith in rw e (drop-drop m n xs)

  length-drop : (n : ℕ) (xs : List A) → length (drop n xs) ≡ length xs - n
  unfolding drop
  length-drop zero xs = omega arith
  length-drop (suc n) [] = omega arith
  length-drop (suc n) (x ∷ xs) = omega (arith, length-drop n xs)

  append-take-drop :
      (acc : List A) (n : ℕ) (xs : List A) → (acc ++ take n xs) ++ drop n xs ≡ acc ++ xs
  unfolding take drop
  append-take-drop [] zero xs = refl
  append-take-drop [] (suc n) [] = refl
  append-take-drop [] (suc n) (x ∷ xs) = ap (λ ys. x ∷ ys) (append-take-drop [] n xs)
  append-take-drop (a ∷ acc) n xs = ap (λ ys. a ∷ ys) (append-take-drop acc n xs)

  -- A prefix that is the whole list, or shorter than it could be.
  take-whole : (n : ℕ) (xs : List A) → length xs ≤ n → take n xs ≡ xs
  unfolding take
  take-whole zero [] h = refl
  take-whole zero (x ∷ xs) h = absurd (omega arith)
  take-whole (suc n) [] h = refl
  take-whole (suc n) (x ∷ xs) h = ap (λ ys. x ∷ ys) (take-whole n xs (omega arith))

  length-take : (n : ℕ) (xs : List A) → n ≤ length xs → length (take n xs) ≡ n
  unfolding take
  length-take zero xs h = refl
  length-take (suc n) [] h = absurd (omega arith)
  length-take (suc n) (x ∷ xs) h = ap suc (length-take n xs (omega arith))

  -- A server that holds a list and answers with the part of it that is asked for.
  unfoldable pub serving : List A → Server A
  serving list start limit =
      ok (record { controls = take limit (drop start list); total_count = length list })

  module _ (list : List A) (limit : ℕ) (positive : 0 < limit) where
    is_last : (current : ℕ) (acc : List A) → Bool
    is_last current acc =
        leb (length list) (length (acc ++ take limit (drop current list)))
        || ltb (length (take limit (drop current list))) limit

    last_page :
        (current : ℕ) (acc : List A)
        → length acc ≡ current
        → current ≤ length list
        → is_last current acc ≡ true
        → length (drop current list) ≤ limit
    unfolding is_last
    last_page current acc e le stop = ground (
      arith,
      length-drop current list,
      length-append acc (take limit (drop current list)),
      length-take limit (drop current list),
    )

    next_page :
        (current : ℕ) (acc : List A)
        → length acc ≡ current
        → current ≤ length list
        → is_last current acc ≡ false
        → (length (acc ++ take limit (drop current list)) ≡ current + limit)
          × (current + limit ≤ length list)
    unfolding is_last
    next_page current acc e le on = ground (
      arith,
      length-drop current list,
      length-append acc (take limit (drop current list)),
      length-take limit (drop current list),
      take-whole limit (drop current list),
    )

    shorter :
        (current fuel : ℕ)
        → current + limit ≤ length list
        → length list - current < suc fuel
        → length list - (current + limit) < fuel
    shorter current fuel le h = omega arith

    loop_complete :
        (fuel current : ℕ) (acc : List A)
        → length list - current < fuel
        → length acc ≡ current
        → current ≤ length list
        → page_loop (serving list) limit fuel acc current ≡ some (ok (acc ++ drop current list))
    unfolding page_loop serving is_last
    loop_complete zero current acc h e le = absurd (omega arith)
    loop_complete (suc fuel) current acc h e le = elim (Bool-cases (is_last current acc)) [
      | inl stop ↦
          rw (stop, page_loop)
            (ap (λ xs. some (ok (acc ++ xs)))
              (take-whole limit (drop current list) (last_page current acc e le stop)))
      | inr on ↦
          rw (on, page_loop)
            (loop_complete fuel (current + limit) (acc ++ take limit (drop current list))
                (shorter current fuel (next_page current acc e le on).1 h)
                (next_page current acc e le on).0 (next_page current acc e le on).1
              ∙ ap (λ xs. some (ok xs))
                  (ap (λ xs. (acc ++ take limit (drop current list)) ++ xs)
                      (drop-drop current limit list)
                    ∙ append-take-drop acc limit (drop current list)))
    ]

    -- Against a server that holds a list, and for pages of at least one control, the loop ends and
    -- returns the whole list in its order.
    pub get_all_site_controls_complete :
        get_all_site_controls (serving list) limit 0 (length list) ≡ some (ok list)
    unfolding get_all_site_controls drop
    get_all_site_controls_complete =
        loop_complete (length list + 1) 0 [] (omega arith) refl (omega arith)
