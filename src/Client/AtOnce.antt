-- ===== src/Client/AtOnce.antt =====
-- A connection for src/evr-glacier-client.c that is answered at once by a server with some blobs: what
-- it has is the bytes that the client has still to read.
use everarch.Prelude.{
  ℕ, ◌≡◌, refl, sym, ap, ap₂, ◌∙◌, true, false, Option, none, some, List, [], ◌++◌, arith, length,
  take, drop, leb, le→leb, if◌then◌else◌, take-append, drop-append, length-append,
}
use everarch.GlacierCmd.{format_cmd_header}
use everarch.GlacierCmd.RoundTrip.{length-format_cmd_header}
use everarch.Server.Requests.{get_blob, request_header, format_request, get_reply}
use everarch.Client.{Link}
use everarch.Client.Fetch.{Answers}

module _ (blobs : List ℕ → Option (ℕ × List ℕ)) where
  abbrev pub at_once : Link (List ℕ)
  at_once = record {
    read_n = λ c n. if leb n (length c) then (some (take n c), drop n c) else (none, []);
    write_n = λ c request. (true, c ++ get_reply (blobs (drop 5 request)));
    dump_n = λ c n. if leb n (length c) then (true, drop n c) else (false, []);
  }

  whole : (c xs ys : List ℕ) → c ≡ xs ++ ys → at_once.read_n c (length xs) ≡ (some xs, ys)
  whole c xs ys e =
      ap (λ x. at_once.read_n x (length xs)) e
      ∙ ap
          (λ t.
            if t
            then (some (take (length xs) (xs ++ ys)), drop (length xs) (xs ++ ys))
            else (none, []))
          (le→leb _ _ (omega (arith, length-append xs ys)))
      ∙ ap₂ (λ a b. (some a, b)) (take-append (length xs) xs ys refl)
          (drop-append (length xs) xs ys refl)

  skipped : (c xs ys : List ℕ) → c ≡ xs ++ ys → at_once.dump_n c (length xs) ≡ (true, ys)
  skipped c xs ys e =
      ap (λ x. at_once.dump_n x (length xs)) e
      ∙ ap (λ t. if t then (true, drop (length xs) (xs ++ ys)) else (false, []))
          (le→leb _ _ (omega (arith, length-append xs ys)))
      ∙ ap (λ b. (true, b)) (drop-append (length xs) xs ys refl)

  asked :
      (c key : List ℕ) (flags : ℕ) (body : List ℕ)
      → c ≡ []
      → blobs key ≡ some (flags, body)
      → at_once.write_n c (format_request (get_blob key)) ≡ (true, get_reply (some (flags, body)))
  unfolding format_request
  asked c key flags body e has =
      ap₂ (λ x y. (true, x ++ get_reply (blobs y))) e
        (drop-append 5 (format_cmd_header (request_header (get_blob key))) key
          (sym (length-format_cmd_header (request_header (get_blob key)))))
      ∙ ap (λ b. (true, get_reply b)) has

  pub at_once-Answers : Answers at_once (λ c bs. c ≡ bs) blobs
  at_once-Answers = record {
    reads = λ c xs ys e. (ys, whole c xs ys e, refl);
    dumps = λ c xs ys e. (ys, skipped c xs ys e, refl);
    asks = λ c key flags body e has.
        (get_reply (some (flags, body)), asked c key flags body e has, refl);
  }
