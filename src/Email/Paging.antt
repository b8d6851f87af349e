-- ===== src/Email/Paging.antt =====
-- src/sync/email.rs: `page_query_ids` reads what the server lists.
use jmapsyncd.Base.{
  ℕ, zero, suc, ◌+◌, ◌*◌, ◌<◌, ◌^◌, ◌≡◌, refl, sym, ap, ◌∙◌, inl, inr, arith, true, false, some,
  List, [], ◌++◌, append_assoc, Text, length, ltb, ltb→lt, Bool-cases,
}
use jmapsyncd.Base.Result.{Result, ok}
use jmapsyncd.Base.Strings.{
  drop, take, take-append-drop, drop-drop, take-all, length-take-le, length-take-le_length,
  length-drop,
}
use jmapsyncd.Email.Pass.{page_query_ids, email_query_page_size, wrap}
use jmapsyncd.World.{Outside, World, Error, ◌>>=◌, next, answer, pure}

-- The server answers with the ids from the position on, up to the limit.
abbrev pub Answers : Outside → Text → List Text → Type 0
Answers O mailbox ids =
    (position : ℕ)
    → O.email_query mailbox position ≡ some (take email_query_page_size (drop position ids))

module _ (O : Outside) (mailbox : Text) (ids : List Text) (answers : Answers O mailbox ids) where
  abbrev done : List Text → World O → Result Error (List Text) × World O
  done r w = (ok r, w)

  last_page :
      (fuel position : ℕ) (all page : List Text) (w : World O)
      → O.email_query mailbox position ≡ some page
      → ltb (length page) email_query_page_size ≡ true
      → page_query_ids O (suc fuel) mailbox position all w ≡ (ok (all ++ page), w)
  unfolding page_query_ids ◌>>=◌ answer pure
  last_page fuel position all page w q e = rw (q, answer, pure, next) (rw e refl)

  full_page :
      (fuel position : ℕ) (all page : List Text) (w : World O)
      → O.email_query mailbox position ≡ some page
      → ltb (length page) email_query_page_size ≡ false
      → wrap (position + length page) ≡ position + length page
      → page_query_ids O (suc fuel) mailbox position all w
        ≡ page_query_ids O fuel mailbox (position + length page) (all ++ page) w
  unfolding page_query_ids ◌>>=◌ answer pure
  full_page fuel position all page w q e r = rw (q, answer, pure, next) (rw (e, r) refl)

  page_from :
      (fuel position : ℕ) (all : List Text) (w : World O)
      → length (drop position ids) < fuel * email_query_page_size
      → position + length (drop position ids) < 2 ^ 31
      → page_query_ids O fuel mailbox position all w ≡ (ok (all ++ drop position ids), w)
  page_from zero position all w h b = ground arith
  page_from (suc fuel) position all w h b =
      let rest = drop position ids in
      let page = take email_query_page_size rest in
      elim (Bool-cases (ltb (length page) email_query_page_size)) [
        | inl e ↦
            last_page fuel position all page w (answers position) e
            ∙ ap (λ (r : List Text). done (all ++ r) w)
                (take-all email_query_page_size rest (ltb→lt (length page) email_query_page_size e))
        | inr e ↦
            let full : length page ≡ email_query_page_size =
              ground (arith, length-take-le email_query_page_size rest) in
            let in_range : wrap (position + length page) ≡ position + length page =
              omega (arith, b, full, length-take-le_length email_query_page_size rest) in
            let next_rest : drop (position + length page) ids ≡ drop email_query_page_size rest =
              rw full (sym (drop-drop position email_query_page_size ids)) in
            full_page fuel position all page w (answers position) e in_range
            ∙ page_from fuel (position + length page) (all ++ page) w
                (rw next_rest (
                  omega (
                    arith,
                    h,
                    full,
                    length-take-le_length email_query_page_size rest,
                    length-drop email_query_page_size rest,
                  )))
                (rw next_rest (
                  omega (
                    arith,
                    b,
                    full,
                    length-take-le_length email_query_page_size rest,
                    length-drop email_query_page_size rest,
                  )))
            ∙ ap (λ (r : List Text). done r w)
                (append_assoc all page (drop (position + length page) ids)
                  ∙ ap (λ (r : List Text). all ++ r)
                      (ap (λ (r : List Text). page ++ r) next_rest
                        ∙ take-append-drop email_query_page_size rest))
      ]

  -- When the server answers each position with the next ids of a list, at most 256 of them, and
  -- the list is not longer than an `i32` can count, the loop returns the whole list in order,
  -- given one more page of fuel than the list fills.
  pub page_query_ids_lem :
      (fuel : ℕ) (w : World O)
      → length ids < fuel * email_query_page_size
      → length ids < 2 ^ 31
      → page_query_ids O fuel mailbox 0 [] w ≡ (ok ids, w)
  unfolding drop
  page_query_ids_lem fuel w h b = page_from fuel 0 [] w h (omega (arith, b))
