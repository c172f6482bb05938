-- ===== src/Payment/Entity.antt =====
-- implementation/payment/src/entity: invoices and the schemas that requests and stored values meet.
-- The schema library zod is a parameter: its combinators are the fields of `Zod`, and what the
-- service relies on is `ZodLaws`.
use tugas_akhir.Common.{ℕ, ◌<◌, String, ◌≡◌, ◌≢◌, Option, none, some, List, [], ◌∷◌, arith}
use tugas_akhir.Payment.Json.{Scalar, null, num, str, iso, Json, obj, field}

pub data Status : Type 0 where
  pending expired paid failed : Status

abbrev pub status_text : Status → String
status_text pending = "pending"
status_text expired = "expired"
status_text paid = "paid"
status_text failed = "failed"

pub record Invoice : Type 0 where
  pub id : String
  pub amount : ℕ
  pub description : String
  pub external_id : String
  pub created_at : ℕ
  pub expired_at : ℕ
  pub paid_at : Option ℕ
  pub paid_amount : Option ℕ
  pub status : Status

pub record CreateInvoice : Type 0 where
  pub amount : ℕ
  pub description : String
  pub external_id : String

pub data Mode : Type 0 where
  success failed : Mode

abbrev pub mode_text : Mode → String
mode_text success = "success"
mode_text failed = "failed"

-- A schema reads the value of a field, `none` where the field is missing.
abbrev pub Parser : Type 0 → Type 0
Parser A = Option Scalar → Option A

-- z.string, z.number, z.coerce.date, z.number().gt, default, nullable and z.enum.
pub record Zod : Type 0 where
  pub string : Parser String
  pub number : Parser ℕ
  pub coerce_date : Parser ℕ
  pub gt : ℕ → Parser ℕ → Parser ℕ
  pub default_to : String → Parser String → Parser String
  pub nullable : Parser ℕ → Parser (Option ℕ)
  pub enum_status : (Status → String) → List Status → Parser Status
  pub enum_mode : (Mode → String) → List Mode → Parser Mode
  pub min_length : ℕ → Parser String → Parser String

infixl 5 ◌>>=◌
abbrev ◌>>=◌ : {A B : Type 0} → Option A → (A → Option B) → Option B
none >>= k = none
some a >>= k = k a

module _ (z : Zod) where
  -- InvoiceSchema.safeParse
  unfoldable pub invoice_schema : Json → Option Invoice
  invoice_schema j = do
    id ← z.string (field "id" j)
    amount ← z.gt 0 z.number (field "amount" j)
    description ← z.default_to "" z.string (field "description" j)
    external_id ← z.string (field "externalId" j)
    created_at ← z.coerce_date (field "createdAt" j)
    expired_at ← z.coerce_date (field "expiredAt" j)
    paid_at ← z.nullable z.coerce_date (field "paidAt" j)
    paid_amount ← z.nullable z.number (field "paidAmount" j)
    status ← z.enum_status status_text (pending ∷ expired ∷ paid ∷ failed ∷ []) (field "status" j)
    some (record {
      id = id;
      amount = amount;
      description = description;
      external_id = external_id;
      created_at = created_at;
      expired_at = expired_at;
      paid_at = paid_at;
      paid_amount = paid_amount;
      status = status;
    })

  -- CreateInvoiceSchema
  unfoldable pub create_invoice_schema : Json → Option CreateInvoice
  create_invoice_schema j = do
    amount ← z.gt 0 z.number (field "amount" j)
    description ← z.default_to "" z.string (field "description" j)
    external_id ← z.string (field "externalId" j)
    some (record { amount = amount; description = description; external_id = external_id })

  -- PayInvoiceSchema
  unfoldable pub pay_invoice_schema : Json → Option Mode
  pay_invoice_schema j = z.enum_mode mode_text (success ∷ Mode.failed ∷ []) (field "mode" j)

  -- IdParamsSchema
  unfoldable pub id_params_schema : Json → Option String
  id_params_schema j = z.min_length 3 z.string (field "id" j)

  -- ErrorSchema
  unfoldable pub error_schema : Json → Option String
  error_schema j = z.string (field "message" j)

  -- The behaviour of zod that the service relies on.
  pub record ZodLaws : Type 0 where
    pub string-str : (s : String) → z.string (some (str s)) ≡ some s
    pub number-num : (n : ℕ) → z.number (some (num n)) ≡ some n
    pub coerce_date-iso : (t : ℕ) → z.coerce_date (some (iso t)) ≡ some t
    pub gt_pass :
        (lo n : ℕ) (p : Parser ℕ) (v : Option Scalar) → lo < n → p v ≡ some n → z.gt lo p v ≡ some n
    pub gt_sound : (lo n : ℕ) (p : Parser ℕ) (v : Option Scalar) → z.gt lo p v ≡ some n → lo < n
    pub default_to_given :
        (d s : String) (p : Parser String) (v : Scalar)
        → p (some v) ≡ some s
        → z.default_to d p (some v) ≡ some s
    pub nullable-null : (p : Parser ℕ) → z.nullable p (some null) ≡ some none
    pub nullable_given :
        (p : Parser ℕ) (v : Scalar) (n : ℕ)
        → v ≢ null
        → p (some v) ≡ some n
        → z.nullable p (some v) ≡ some (some n)
    pub enum_status-text :
        (s : Status)
        → z.enum_status status_text
            (pending ∷ expired ∷ paid ∷ failed ∷ [])
            (some (str (status_text s)))
          ≡ some s

abbrev nullable_json : (ℕ → Scalar) → Option ℕ → Scalar
nullable_json f none = null
nullable_json f (some n) = f n

-- The value that JSON.stringify prints for an invoice.
unfoldable pub invoice_json : Invoice → Json
invoice_json inv = obj (
    ("id", str inv.id)
    ∷ ("amount", num inv.amount)
    ∷ ("description", str inv.description)
    ∷ ("externalId", str inv.external_id)
    ∷ ("createdAt", iso inv.created_at)
    ∷ ("expiredAt", iso inv.expired_at)
    ∷ ("paidAt", nullable_json iso inv.paid_at)
    ∷ ("paidAmount", nullable_json num inv.paid_amount)
    ∷ ("status", str (status_text inv.status))
    ∷ [])

module _ (z : Zod) (laws : ZodLaws z) where
  nullable_date : (t : Option ℕ) → z.nullable z.coerce_date (some (nullable_json iso t)) ≡ some t
  nullable_date none = laws.nullable-null z.coerce_date
  nullable_date (some t) =
      laws.nullable_given z.coerce_date (iso t) t (λ e. cc e) (laws.coerce_date-iso t)

  nullable_number : (n : Option ℕ) → z.nullable z.number (some (nullable_json num n)) ≡ some n
  nullable_number none = laws.nullable-null z.number
  nullable_number (some n) = laws.nullable_given z.number (num n) n (λ e. cc e) (laws.number-num n)

  pub schema-json :
      (inv : Invoice) → 0 < inv.amount → invoice_schema z (invoice_json inv) ≡ some inv
  unfolding invoice_schema invoice_json
  schema-json inv h = simp (
    laws.string-str inv.id,
    laws.string-str inv.external_id,
    laws.gt_pass 0 inv.amount z.number (some (num inv.amount)) h (laws.number-num inv.amount),
    laws.default_to_given "" inv.description z.string (str inv.description)
        (laws.string-str inv.description),
    laws.coerce_date-iso inv.created_at,
    laws.coerce_date-iso inv.expired_at,
    nullable_date inv.paid_at,
    nullable_number inv.paid_amount,
    laws.enum_status-text inv.status,
  )

  pub schema-positive : (j : Json) (inv : Invoice) → invoice_schema z j ≡ some inv → 0 < inv.amount
  unfolding invoice_schema
  schema-positive j inv h = grind (arith, laws.gt_sound)

  pub create_schema-positive :
      (j : Json) (payload : CreateInvoice)
      → create_invoice_schema z j ≡ some payload
      → 0 < payload.amount
  unfolding create_invoice_schema
  create_schema-positive j payload h = grind (arith, laws.gt_sound)
