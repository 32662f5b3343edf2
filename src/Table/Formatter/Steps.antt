-- ===== src/Table/Formatter/Steps.antt =====
-- The steps by which the formatter fills a table: sections that can be rendered, of which the last is
-- new or has its columns.
use m_awsexp.Common.{Str, ℕ, List, [], ◌∷◌, ◌++◌, some, All}
use m_awsexp.Common.{◌≡◌, ◌≢◌, refl, ◌∙◌, length}
use m_awsexp.Table.Section.{
  Section, Outcome, done, ◌>>=◌, init, new_section, on_current, table_add_row,
}
use m_awsexp.Table.Section.{table_add_row_header, add_row, add_header}
use m_awsexp.Table.Section.Columns.{IsFresh, HasCols, add_row-IsFresh, add_row-HasCols}
use m_awsexp.Table.Section.Columns.{
  add_header-IsFresh, HasCols-IsSized, IsFresh-IsSized, All-append,
}
use m_awsexp.Table.Render.Whole.{IsReady, TitleLine}
use m_awsexp.Table.Section.Columns.{OneLine}
use m_awsexp.Common.{sym}
use mathlib.Core.Path.{subst}
use mathlib.Core.Option.{some-injective}

on_current-append :
    (f : Section → Outcome Section) (pre : List Section) (s s' : Section)
    → f s ≡ done s'
    → on_current f (pre ++ s ∷ []) ≡ done (pre ++ s' ∷ [])
unfolding on_current
on_current-append f [] s s' e = rw e
on_current-append f (t ∷ []) s s' e = rw e
on_current-append f (t ∷ u ∷ pre) s s' e = rw (on_current-append f (u ∷ pre) s s' e)

-- The current section has `n` columns, and all can be rendered.
pub record Current (n : ℕ) (ss : List Section) : Type 0 where
  pub others : List Section
  pub current : Section
  pub splits : ss ≡ others ++ current ∷ []
  pub ready : All IsReady others
  pub cols : HasCols n current
  pub titled : (title : Str) × (current.title ≡ some title)
  pub title_line : TitleLine current

-- The current section is new.
pub record Started (ss : List Section) : Type 0 where
  pub others : List Section
  pub current : Section
  pub splits : ss ≡ others ++ current ∷ []
  pub ready : All IsReady others
  pub fresh : IsFresh current
  pub titled : (title : Str) × (current.title ≡ some title)
  pub title_line : TitleLine current

-- What a step makes of the sections.
abbrev pub Leads : (List Section → Type 0) → Outcome (List Section) → Type 0
Leads P r = (ss : List Section) × (r ≡ done ss) × P ss

-- There are sections, and all can be rendered.
abbrev pub Ready : List Section → Type 0
Ready ss = (ss ≢ []) × All IsReady ss

append-ne-nil : (ss : List Section) (s : Section) → ss ++ s ∷ [] ≢ []
append-ne-nil [] s = λ e. cc
append-ne-nil (t ∷ ss) s = λ e. cc

pub new_section-Started :
    (title : Str) (indent_level : ℕ) (ss : List Section)
    → OneLine title
    → All IsReady ss
    → Started (new_section (some title) indent_level ss)
unfolding new_section init
new_section-Started title indent_level ss one h = record {
  others = ss;
  current = record init { title = some title; indent_level = indent_level };
  splits = refl;
  ready = h;
  fresh = record { uncounted = refl; no_widths = refl; no_headers = refl; no_rows = refl };
  titled = (title, refl);
  title_line = λ x e. subst OneLine (some-injective title x e) one;
}

pub Started-Ready : (ss : List Section) → Started ss → Ready ss
Started-Ready ss st = rw st.splits (
  append-ne-nil st.others st.current,
  All-append IsReady st.others (st.current ∷ []) st.ready (
    record {
      titled = st.titled;
      title_line = st.title_line;
      sized = IsFresh-IsSized st.current st.fresh;
    },
    tt,
  ),
)

pub Current-Ready : (n : ℕ) (ss : List Section) → Current n ss → Ready ss
Current-Ready n ss c = rw c.splits (
  append-ne-nil c.others c.current,
  All-append IsReady c.others (c.current ∷ []) c.ready (
    record {
      titled = c.titled;
      title_line = c.title_line;
      sized = HasCols-IsSized n c.current c.cols;
    },
    tt,
  ),
)

pub add_row-Started :
    (row : List Str) (ss : List Section)
    → All OneLine row
    → Started ss
    → Leads (Current (length row)) (table_add_row row ss)
unfolding table_add_row
add_row-Started row ss one st =
    let (s', e, cols, t) = add_row-IsFresh row st.current one st.fresh in
    (
      st.others ++ s' ∷ [],
      rw st.splits (on_current-append (add_row row) st.others st.current s' e),
      record {
        others = st.others;
        current = s';
        splits = refl;
        ready = st.ready;
        cols = cols;
        titled = (st.titled.0, t ∙ st.titled.1);
        title_line = λ x e. st.title_line x (sym t ∙ e);
      },
    )

pub add_row-Current :
    (n : ℕ) (row : List Str) (ss : List Section)
    → All OneLine row
    → length row ≡ n
    → Current n ss
    → Leads (Current n) (table_add_row row ss)
unfolding table_add_row
add_row-Current n row ss one h c =
    let (s', e, cols, t) = add_row-HasCols n row c.current one c.cols h in
    (
      c.others ++ s' ∷ [],
      rw c.splits (on_current-append (add_row row) c.others c.current s' e),
      record {
        others = c.others;
        current = s';
        splits = refl;
        ready = c.ready;
        cols = cols;
        titled = (c.titled.0, t ∙ c.titled.1);
        title_line = λ x e. c.title_line x (sym t ∙ e);
      },
    )

pub add_header-Started :
    (headers : List Str) (ss : List Section)
    → All OneLine headers
    → Started ss
    → Leads (Current (length headers)) (table_add_row_header headers ss)
unfolding table_add_row_header
add_header-Started headers ss one st =
    let (s', e, cols, t) = add_header-IsFresh headers st.current one st.fresh in
    (
      st.others ++ s' ∷ [],
      rw st.splits (on_current-append (add_header headers) st.others st.current s' e),
      record {
        others = st.others;
        current = s';
        splits = refl;
        ready = st.ready;
        cols = cols;
        titled = (st.titled.0, t ∙ st.titled.1);
        title_line = λ x e. st.title_line x (sym t ∙ e);
      },
    )

pub >>=-Leads :
    (P Q : List Section → Type 0) (m : Outcome (List Section))
    (f : List Section → Outcome (List Section))
    → Leads P m
    → ((ss : List Section) → P ss → Leads Q (f ss))
    → Leads Q (m >>= f)
>>=-Leads P Q m f (ss, e, p) k = let (ss', e', q) = k ss p in (ss', rw e e', q)
