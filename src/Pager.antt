-- ===== src/Pager.antt =====
-- pkg/utils/pager/pager.go: listing in pages. The pages are fetched in the background and handled in
-- order, until the context is done.
pub mod Pages
use kubernetes_controller_sh.Base.{
  ℕ, zero, suc, ◌+◌, String, ◌==◌, ◌≡◌, refl, Bool, true, false, Option, none, some, List, [], ◌∷◌,
  ◌++◌, if◌then◌else◌,
}
use kubernetes_controller_sh.Base.Int.{ℤ, pos, negsuc, ltb_ℤ}
use kubernetes_controller_sh.Base.Result.{Result, ok, err}
use kubernetes_controller_sh.Api.Client.{ApiError}

abbrev pub default_page_size : ℤ
default_page_size = pos 500

abbrev pub default_page_buffer_size : ℤ
default_page_buffer_size = pos 10

-- client.ListOptions, with the resource version of the raw options.
pub record ListOptions : Type 0 where
  pub limit : ℤ
  pub continue_token : String
  pub resource_version : String
  pub resource_version_match : String

pub record Page (A : Type 0) : Type 0 where
  pub items : List A
  pub continue_token : String

pub data PagerError : Type 0 where
  negative_buffer_size negative_limit cancelled out_of_fuel : PagerError
  listing : ApiError → PagerError

-- What the pager asks, and whether the context is done, both by the number of the round; a round of
-- the server may see other data than the one before.
pub record Reader (A : Type 0) : Type 0 where
  pub page : ℕ → ListOptions → Result ApiError (Page A)
  pub is_done : ℕ → Bool
  -- Whether the context is done when the page of that round is taken from the buffer.
  pub is_done_handling : ℕ → Bool

pub record ListPager (A : Type 0) : Type 0 where
  pub reader : Reader A
  pub page_size : ℤ
  pub page_buffer_size : ℤ

-- The pages that were fetched, the options that each was asked with, and how the listing ended.
pub record Fetched (A : Type 0) : Type 0 where
  pub pages : List (Page A)
  pub asked : List ListOptions
  pub failure : Option PagerError

abbrev pub is_zero : ℤ → Bool
is_zero (pos zero) = true
is_zero (pos (suc n)) = false
is_zero (negsuc n) = false

module _ {A : Type 0} where
  unfoldable pub new : Reader A → ListPager A
  new reader = record {
    reader = reader;
    page_size = default_page_size;
    page_buffer_size = default_page_buffer_size;
  }

  stopped : PagerError → Fetched A
  stopped e = record { pages = []; asked = []; failure = some e }

  with_page : Page A → ListOptions → Fetched A → Fetched A
  with_page p o f = record { pages = p ∷ f.pages; asked = o ∷ f.asked; failure = f.failure }

  failed_with : ListOptions → PagerError → Fetched A
  failed_with o e = record { pages = []; asked = o ∷ []; failure = some e }

  -- "set the next loop up": the resource version is cleared.
  abbrev next_options : ListOptions → Page A → ListOptions
  next_options o p = record {
    limit = o.limit;
    continue_token = p.continue_token;
    resource_version = "";
    resource_version_match = "";
  }

  -- The loop of `eachListChunk`, from a round on.
  unfoldable pub chunk_loop : ℕ → Reader A → ℕ → ListOptions → Fetched A
  unfolding stopped with_page failed_with
  chunk_loop zero reader round options = stopped out_of_fuel
  chunk_loop (suc fuel) reader round options =
      if reader.is_done round then stopped cancelled else elim (reader.page round options) [
        | err e ↦ failed_with options (listing e)
        | ok p ↦ with_page p options (elim (p.continue_token == "") [
          | true ↦ record { pages = []; asked = []; failure = none }
          | false ↦ chunk_loop fuel reader (suc round) (next_options options p)
        ])
      ]

  -- The options with the page size of the pager, if they have no limit.
  unfoldable pub first_options : ListPager A → ListOptions → ListOptions
  first_options pager options = record options {
    limit = if is_zero options.limit then pager.page_size else options.limit;
  }

  unfoldable pub each_list_chunk : ℕ → ListPager A → ListOptions → Fetched A
  unfolding stopped
  each_list_chunk fuel pager options =
      let first = first_options pager options in
      if ltb_ℤ first.limit (pos 0)
      then stopped negative_limit
      else chunk_loop fuel pager.reader 0 first

  -- The loop over the pages in the buffer: it stops at the first page that it takes with a context that
  -- is done, and otherwise ends with what the listing ended with.
  unfoldable pub handle_pages :
      (ℕ → Bool) → ℕ → List (Page A) → Option PagerError → List A × Option PagerError
  handle_pages is_done round [] failure = ([], failure)
  handle_pages is_done round (p ∷ ps) failure =
      let rest = handle_pages is_done (suc round) ps failure in
      if is_done round then ([], some cancelled) else (p.items ++ rest.0, rest.1)

  -- `EachListItem` and `EachListItemWithAlloc` with a handler that returns no error: the items that
  -- are handled, in order, and the error of the listing.
  unfoldable pub each_list_item : ℕ → ListPager A → ListOptions → List A × Option PagerError
  unfolding handle_pages
  each_list_item fuel pager options =
      if ltb_ℤ pager.page_buffer_size (pos 0)
      then ([], some negative_buffer_size)
      else (let f = each_list_chunk fuel pager options in
          handle_pages pager.reader.is_done_handling 0 f.pages f.failure)
