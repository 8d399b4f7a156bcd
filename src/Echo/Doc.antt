-- ===== src/Echo/Doc.antt =====
-- Reading the list of devices gives back the names that it was written from.
use ex_netlink.Base.{
  ℕ, ◌≡◌, ◌≢◌, refl, sym, ap, ◌∙◌, some, List, [], ◌∷◌, ◌++◌, append_assoc, append-nil, ◌==◌, All,
  map, arith, Bool-cases, inl, inr,
}
use ex_netlink.Echo.Devices.{
  Devices, take_byte, start_client, read_byte, read_devices, doc, nonzero, IsLine,
}

module _ (ip : List ℕ → ℕ) where
  abbrev reading : List ℕ → ℕ → List ℕ → Devices
  reading dev_name buf clients = record { dev_name = dev_name; buf = buf; clients = clients }

  take_byte-letter :
      (dev : List ℕ) (c : ℕ) (clients : List ℕ)
      → c ≢ 10
      → take_byte ip (reading dev c clients) ≡ reading (dev ++ (c ∷ [])) c clients
  unfolding take_byte
  take_byte-letter dev c clients h = ground arith

  take_byte-newline :
      (dev clients : List ℕ)
      → take_byte ip (reading dev 10 clients) ≡ reading [] 10 (clients ++ nonzero (ip dev ∷ []))
  unfolding take_byte start_client
  take_byte-newline dev clients = elim (Bool-cases (ip dev == 0)) [
    | inl h ↦ rw (h, append-nil clients) refl
    | inr h ↦ rw h refl
  ]

  -- The bytes of a name are put behind those read before.
  read-line :
      (line us dev : List ℕ) (buf : ℕ) (clients : List ℕ)
      → IsLine line
      → (b : ℕ) × (read_devices ip (reading dev buf clients) (map some (line ++ us))
          ≡ read_devices ip (reading (dev ++ line) b clients) (map some us))
  unfolding read_devices read_byte
  read-line [] us dev buf clients h =
      (buf, ap (λ l. read_devices ip (reading l buf clients) (map some us)) (sym (append-nil dev)))
  read-line (c ∷ line) us dev buf clients h =
      let (b, e) = read-line line us (dev ++ (c ∷ [])) c clients h.1 in
      (
        b,
        ap (λ d. read_devices ip d (map some (line ++ us))) (take_byte-letter dev c clients h.0)
            ∙ e
            ∙ ap (λ l. read_devices ip (reading l b clients) (map some us))
                (append_assoc dev (c ∷ []) line),
      )

  nonzero-cons : (a : ℕ) (rest : List ℕ) → nonzero (a ∷ []) ++ nonzero rest ≡ nonzero (a ∷ rest)
  nonzero-cons a rest = elim (Bool-cases (a == 0)) [ inl h ↦ rw h refl | inr h ↦ rw h refl ]

  read-doc :
      (names : List (List ℕ)) (rest : List ℕ) (buf : ℕ) (clients : List ℕ)
      → All IsLine names
      → IsLine rest
      → (b : ℕ) × (read_devices ip (reading [] buf clients) (map some (doc names ++ rest))
          ≡ reading rest b (clients ++ nonzero (map ip names)))
  unfolding read_devices read_byte
  read-doc [] rest buf clients h r =
      let (b, e) = read-line rest [] [] buf clients r in
      (
        b,
        ap (λ l. read_devices ip (reading [] buf clients) (map some l)) (sym (append-nil rest))
            ∙ e
            ∙ ap (reading rest b) (sym (append-nil clients)),
      )
  read-doc (name ∷ names) rest buf clients h r =
      let (b, e) = read-line name (10 ∷ (doc names ++ rest)) [] buf clients h.0 in
      let (c, f) = read-doc names rest 10 (clients ++ nonzero (ip name ∷ [])) h.1 r in
      (
        c,
        ap (λ l. read_devices ip (reading [] buf clients) (map some l))
              (append_assoc name (10 ∷ doc names) rest)
            ∙ e
            ∙ ap (λ d. read_devices ip d (map some (doc names ++ rest)))
                (take_byte-newline name clients)
            ∙ f
            ∙ ap (reading rest c) (
                append_assoc clients (nonzero (ip name ∷ [])) (nonzero (map ip names))
                ∙ ap (λ l. clients ++ l) (nonzero-cons (ip name) (map ip names))),
      )

  -- The loop of `main` reads back what the file was written from: of a file that holds names without
  -- a newline, each with a newline behind it, and then a rest without one, it starts a thread for
  -- each name, in order, with the address of its device, but for those whose address is 0; the rest
  -- is read and not used.
  pub read_devices-doc :
      (names : List (List ℕ)) (rest : List ℕ) (buf : ℕ)
      → All IsLine names
      → IsLine rest
      → (b : ℕ) × (read_devices ip
            (record { dev_name = []; buf = buf; clients = [] })
            (map some (doc names ++ rest))
          ≡ record { dev_name = rest; buf = b; clients = nonzero (map ip names) })
  read_devices-doc names rest buf h r = read-doc names rest buf [] h r
