-- ===== src/WebShop/Publishing.antt =====
-- `enqueue_product_sync`, with the pushes of a product's images and videos.
use inaam_wperp.Base.{
  ℕ, String, ◌<>◌, Bool, true, false, not, ◌&&◌, ◌||◌, Option, none, some, List, [], ◌∷◌, ◌=ₜ◌,
  ◌==◌, if◌then◌else◌, exists_by, select_by, is_empty, same_id, text_or,
}
use inaam_wperp.Base.Int.{ℤ, pos, ltb_ℤ}
use inaam_wperp.Models.{Db}
use inaam_wperp.Models.Catalog.{Product}
use inaam_wperp.Models.Sync.{SyncOutbox, ProductImage, ProductVideo}
use inaam_wperp.Session.{M, Result, ◌>>=◌, ◌>>◌, pure, gets, lift, require_company_id, Env}
use inaam_wperp.WebShop.Outbox.{connector_name, outbox_key, enqueue_sync_outbox}

-- What the queue computes with by other means. `product_json` is the JSON of
-- `build_woocommerce_product_payload`, which only reads, and `images_json` and `videos_json` are `json.dumps`
-- of a product's rows, in the order of their queries; `sha256` is the digest, `int_of` Python's `int`, and
-- `is_local_media` says whether a URL has a path among the uploads, with urllib's and pathlib's parsing. None
-- of them is assumed to have any law.
pub record Formats : Type 0 where
  pub product_json : Db → Product → Result String
  pub images_json : List ProductImage → String
  pub videos_json : List ProductVideo → String
  pub sha256 : String → String
  pub int_of : String → Option ℤ
  pub is_local_media : String → Result Bool

abbrev pub image_of : ℕ → ℕ → ProductImage → Bool
image_of company product i = i.company_id == company && i.product_id == product

-- `product_images_for_sync`, with the images that wait for their removal.
abbrev pub product_images : Db → ℕ → ℕ → List ProductImage
product_images db company product = select_by (image_of company product) db.sync.images

abbrev pub product_videos : Db → ℕ → List ProductVideo
product_videos db product = select_by (λ v. v.product_id == product) db.sync.videos

abbrev pub is_mapped : Db → ℕ → ℕ → Bool
is_mapped db company product =
    exists_by
      (λ m.
        (same_id m.company_id (some company) && m.connector =ₜ connector_name)
        && (m.internal_resource_type =ₜ "product" && m.internal_resource_id == product))
      db.sync.resource_maps

abbrev pub is_positive : Option ℤ → Bool
is_positive none = false
is_positive (some n) = ltb_ℤ (pos 0) n

-- The id of an image that the web shop has: `_woocommerce_image_id(…) is None` is its negation.
abbrev pub has_image_id : Formats → String → Bool
has_image_id web t = is_positive (web.int_of t)

unfoldable pub image_requires_sync : Formats → ProductImage → M Bool
image_requires_sync web i =
    if i.sync_status =ₜ "pending_remove"
    then pure false
    else if not (i.sync_status =ₜ "synced")
    then pure true
    else if is_empty (text_or i.external_id "")
    then pure true
    else if has_image_id web (text_or i.external_id "")
    then pure false
    else lift (λ db. web.is_local_media i.url)

-- The rest of `any(…)` is not asked where the first is true.
abbrev pub true_or : M Bool → Bool → M Bool
true_or rest true = pure true
true_or rest false = rest

unfoldable pub any_requires_sync : Formats → List ProductImage → M Bool
any_requires_sync web [] = pure false
any_requires_sync web (i ∷ images) = do
  requires ← image_requires_sync web i
  true_or (any_requires_sync web images) requires

abbrev pub is_visible : ProductImage → Bool
is_visible i = not (i.sync_status =ₜ "pending_remove")

-- Without a mapping the visible images have to be pushed.
unfoldable pub requires_media : Formats → List ProductImage → Bool → M Bool
requires_media web images true = any_requires_sync web images
requires_media web images false = pure (exists_by is_visible images)

unfoldable pub product_requires_media_sync : Formats → ℕ → Product → M Bool
product_requires_media_sync web company product = do
  mapped ← gets (λ db. is_mapped db company product.id)
  images ← gets (λ db. product_images db company product.id)
  requires_media web images mapped

abbrev pub product_requires_video_sync : ℕ → Product → Db → Bool
product_requires_video_sync company product db =
    exists_by (λ v. v.product_id == product.id) db.sync.videos || is_mapped db company product.id

unfoldable pub enqueue_product_media_sync : Formats → Env → Option ℕ → Product → M SyncOutbox
enqueue_product_media_sync web env company_id product = do
  company ← require_company_id company_id
  images ← gets (λ db. product_images db company product.id)
  let state = web.images_json images
  let key = outbox_key (web.sha256 state) env company "push_media" "product" product.id
  enqueue_sync_outbox env (some company) "push_media" "product" product.id
      ("{\"images\": " <> state <> "}") (some key)

unfoldable pub enqueue_product_video_sync : Formats → Env → Option ℕ → Product → M SyncOutbox
enqueue_product_video_sync web env company_id product = do
  company ← require_company_id company_id
  videos ← gets (λ db. product_videos db product.id)
  let state = web.videos_json videos
  let key = outbox_key (web.sha256 state) env company "push_videos" "product" product.id
  enqueue_sync_outbox env (some company) "push_videos" "product" product.id
      ("{\"videos\": " <> state <> "}") (some key)

unfoldable pub queue_if : M SyncOutbox → Bool → M (Unit {0})
queue_if push false = pure tt
queue_if push true = do push; pure tt

-- With `ensure_taxonomies=False`, as the shop calls it.
unfoldable pub enqueue_product_sync : Formats → Env → Option ℕ → Product → M SyncOutbox
enqueue_product_sync web env company_id product = do
  company ← require_company_id company_id
  payload ← lift (λ db. web.product_json db product)
  let key = outbox_key (web.sha256 payload) env company "push" "product" product.id
  outbox ← enqueue_sync_outbox env (some company) "push" "product" product.id payload (some key)
  with_images ← product_requires_media_sync web company product
  queue_if (enqueue_product_media_sync web env (some company) product) with_images
  with_videos ← gets (product_requires_video_sync company product)
  queue_if (enqueue_product_video_sync web env (some company) product) with_videos
  pure outbox
