-- ===== src/Pager/Pages.antt =====
-- The pager fetches every page once, and asks for the later pages by token alone.
use kubernetes_controller_sh.Base.{
  ℕ, zero, suc, ◌≤◌, String, ◌==◌, eq_iff, ◌≡◌, ◌≢◌, refl, ap, Bool, false, Option, none, ◌++◌,
  if◌then◌else◌, List, [], ◌∷◌, length, Bool-cases, inl, inr, arith,
}
use kubernetes_controller_sh.Base.Int.{ℤ, pos, negsuc, ltb_ℤ}
use kubernetes_controller_sh.Base.Result.{ok, Result-cases}
use kubernetes_controller_sh.Pager.{
  ListOptions, Page, Reader, ListPager, chunk_loop, each_list_chunk, each_list_item, next_options,
  first_options, is_zero, handle_pages, PagerError,
}

-- The pages that a server without failures hands out from a round on, up to the one with no token: each
-- next one is asked for with the token of the one before, the same limit, and no resource version.
pub data Chain {A : Type 0} (reader : Reader A) : ℕ → ListOptions → List (Page A) → Type 0 where
  last :
      (r : ℕ) (o : ListOptions) (p : Page A)
      → reader.is_done r ≡ false
      → reader.page r o ≡ ok p
      → p.continue_token ≡ ""
      → Chain reader r o (p ∷ [])
  more :
      (r : ℕ) (o : ListOptions) (p : Page A) (ps : List (Page A))
      → reader.is_done r ≡ false
      → reader.page r o ≡ ok p
      → p.continue_token ≢ ""
      → Chain reader
          (suc r)
          (record {
            limit = o.limit;
            continue_token = p.continue_token;
            resource_version = "";
            resource_version_match = "";
          })
          ps
      → Chain reader r o (p ∷ ps)

is_neq : (s t : String) → s ≢ t → (s == t) ≡ false
is_neq s t h = elim (Bool-cases (s == t)) [ inl e ↦ absurd (h ((eq_iff s t).0 e)) | inr ne ↦ ne ]

-- The items of the pages, in order.
unfoldable pub all_items : {A : Type 0} → List (Page A) → List A
all_items [] = []
all_items (p ∷ ps) = p.items ++ all_items ps

abbrev pub limit_or : ℤ → ℤ → ℤ
limit_or (pos zero) size = size
limit_or (pos (suc n)) size = pos (suc n)
limit_or (negsuc n) size = negsuc n

-- The limit of every request: the caller's, or the page size of the pager where the caller has none.
abbrev pub requested_limit : {A : Type 0} → ListPager A → ListOptions → ℤ
requested_limit pager options = limit_or options.limit pager.page_size

first_options_lem :
    {A : Type 0} (pager : ListPager A) (options : ListOptions)
    → first_options pager options ≡ record options { limit = requested_limit pager options }
unfolding first_options
first_options_lem pager options =
    ap (λ l. record options { limit = l }) (go options.limit pager.page_size)
  where
    go : (l size : ℤ) → (if is_zero l then size else l) ≡ limit_or l size
    go (pos zero) size = refl
    go (pos (suc n)) size = refl
    go (negsuc n) size = refl

module _ {A : Type 0} where
  handle_pages_all :
      (is_done : ℕ → Bool) (r : ℕ) (ps : List (Page A)) (failure : Option PagerError)
      → ((n : ℕ) → is_done n ≡ false)
      → handle_pages is_done r ps failure ≡ (all_items ps, failure)
  unfolding handle_pages all_items
  handle_pages_all is_done r [] failure h = refl
  handle_pages_all is_done r (p ∷ ps) failure h =
      rw (h r, handle_pages_all is_done (suc r) ps failure h) refl

  chunk_loop-Chain :
      (fuel : ℕ) (reader : Reader A) (r : ℕ) (o : ListOptions) (ps : List (Page A))
      → Chain reader r o ps
      → length ps ≤ fuel
      → ((chunk_loop fuel reader r o).pages ≡ ps) × ((chunk_loop fuel reader r o).failure ≡ none)
  unfolding chunk_loop
  chunk_loop-Chain zero reader r o ps (last _ _ p d e t) le = absurd (omega arith)
  chunk_loop-Chain zero reader r o ps (more _ _ p qs d e t c) le = absurd (omega arith)
  chunk_loop-Chain (suc fuel) reader r o ps (last _ _ p d e t) le =
      rw d (rw e (rw ((eq_iff p.continue_token "").1 t) (refl, refl)))
  chunk_loop-Chain (suc fuel) reader r o ps (more _ _ p qs d e t c) le =
      let (pages, failure) =
        chunk_loop-Chain fuel reader (suc r) (next_options o p) qs c (omega arith) in
      rw d (rw e (rw (is_neq p.continue_token "" t) (ap (λ l. p ∷ l) pages, failure)))

  -- Where the server hands out a finite chain of pages and the context lives on, as many rounds as
  -- pages fetch all the pages, and `EachListItem` handles all their items in order and ends without
  -- an error. (The buffer size and the limit are not negative.)
  pub each_list_item-Chain :
      (fuel : ℕ) (pager : ListPager A) (options : ListOptions) (ps : List (Page A))
      → ltb_ℤ pager.page_buffer_size (pos 0) ≡ false
      → ltb_ℤ (requested_limit pager options) (pos 0) ≡ false
      → ((n : ℕ) → pager.reader.is_done_handling n ≡ false)
      → Chain pager.reader 0 (record options { limit = requested_limit pager options }) ps
      → length ps ≤ fuel
      → each_list_item fuel pager options ≡ (all_items ps, none)
  unfolding each_list_item each_list_chunk
  each_list_item-Chain fuel pager options ps b l live c le =
      let first : ListOptions = record options { limit = requested_limit pager options } in
      let (pages, failure) = chunk_loop-Chain fuel pager.reader 0 first ps c le in
      rw b (
        rw (first_options_lem pager options) (
          rw l
            (rw (pages, failure) (handle_pages_all pager.reader.is_done_handling 0 ps none live))))

-- A request for a later page: it names the page by its token, and no resource version.
pub record IsLater (limit : ℤ) (o : ListOptions) : Type 0 where
  pub same_limit : o.limit ≡ limit
  pub by_token : o.continue_token ≢ ""
  pub no_version : o.resource_version ≡ ""
  pub no_match : o.resource_version_match ≡ ""

abbrev pub AllLater : ℤ → List ListOptions → Type 0
AllLater limit [] = Unit
AllLater limit (o ∷ os) = IsLater limit o × AllLater limit os

-- The first request carries the caller's options and has the limit, the others are for later pages.
abbrev pub AskedRight : ℤ → ListOptions → List ListOptions → Type 0
AskedRight limit options [] = Unit
AskedRight limit options (o ∷ os) =
    (o.limit ≡ limit)
    × (o.continue_token ≡ options.continue_token)
    × (o.resource_version ≡ options.resource_version)
    × (o.resource_version_match ≡ options.resource_version_match)
    × AllLater limit os

IsLater-next :
    {A : Type 0} (o : ListOptions) (p : Page A) (limit : ℤ)
    → o.limit ≡ limit
    → (p.continue_token == "") ≡ false
    → IsLater limit (next_options o p)
IsLater-next o p limit same t = record {
  same_limit = same;
  by_token = λ e. cc (t, (eq_iff p.continue_token "").1 e);
  no_version = refl;
  no_match = refl;
}

module _ {A : Type 0} where
  AllLater-chunk_loop :
      (fuel : ℕ) (reader : Reader A) (r : ℕ) (o : ListOptions) (limit : ℤ)
      → IsLater limit o
      → AllLater limit (chunk_loop fuel reader r o).asked
  unfolding chunk_loop
  AllLater-chunk_loop zero reader r o limit h = tt
  AllLater-chunk_loop (suc fuel) reader r o limit h = elim (Bool-cases (reader.is_done r)) [
    | inl d ↦ rw d tt
    | inr d ↦ elim (Result-cases (reader.page r o)) [
      | inr (e, failed) ↦ rw d (rw failed (h, tt))
      | inl (p, fetched) ↦ elim (Bool-cases (p.continue_token == "")) [
        | inl t ↦ rw d (rw fetched (rw t (h, tt)))
        | inr t ↦ rw d (
            rw fetched (
              rw t (
                h,
                AllLater-chunk_loop fuel reader (suc r) (next_options o p) limit
                    (IsLater-next o p limit h.same_limit t),
              )))
      ]
    ]
  ]

module _ {A : Type 0} where
  AskedRight-chunk_loop :
      (fuel : ℕ) (reader : Reader A) (r : ℕ) (o : ListOptions)
      → AskedRight o.limit o (chunk_loop fuel reader r o).asked
  unfolding chunk_loop
  AskedRight-chunk_loop zero reader r o = tt
  AskedRight-chunk_loop (suc fuel) reader r o = elim (Bool-cases (reader.is_done r)) [
    | inl d ↦ rw d tt
    | inr d ↦ elim (Result-cases (reader.page r o)) [
      | inr (e, failed) ↦ rw d (rw failed (refl, refl, refl, refl, tt))
      | inl (p, fetched) ↦ elim (Bool-cases (p.continue_token == "")) [
        | inl t ↦ rw d (rw fetched (rw t (refl, refl, refl, refl, tt)))
        | inr t ↦ rw d (
            rw fetched (
              rw t (
                refl,
                refl,
                refl,
                refl,
                AllLater-chunk_loop fuel reader (suc r) (next_options o p) o.limit
                    (IsLater-next o p o.limit refl t),
              )))
      ]
    ]
  ]

  -- Whatever the server answers, the first request carries the caller's options, with the page size
  -- of the pager as limit if they have none, and every further request has the same limit, a token, and no resource version: such requests are
  -- not refused for naming a resource version beside a token.
  pub asked-each_list_chunk :
      (fuel : ℕ) (pager : ListPager A) (options : ListOptions)
      → AskedRight
          (requested_limit pager options)
          options
          (each_list_chunk fuel pager options).asked
  unfolding each_list_chunk
  asked-each_list_chunk fuel pager options =
      rw (first_options_lem pager options)
        (elim (Bool-cases (ltb_ℤ (requested_limit pager options) (pos 0))) [
          | inl negative ↦ rw negative tt
          | inr fine ↦ rw fine (
              AskedRight-chunk_loop fuel pager.reader 0
                (record options { limit = requested_limit pager options }))
        ])
