-- ===== src/WebShop/Frame.antt =====
-- Queueing pushes leaves the stock.
use inaam_wperp.Base.{ℕ, String, ◌<>◌, Bool, true, false, Option, none, some, List, [], ◌∷◌, arith}
use inaam_wperp.Models.{Db}
use inaam_wperp.Models.Catalog.{Product}
use inaam_wperp.Models.Sync.{SyncOutbox, ProductImage}
use inaam_wperp.Models.Stock.{StockTables}
use inaam_wperp.Keeps.{Keeps, pure-Keeps, lift-Keeps, bind-Keeps, gets-Keeps}
use inaam_wperp.Session.{M, lift, require_company_id, Env}
use inaam_wperp.WebShop.Outbox.{
  validate_resource_type, key_or_new, or_new_row, outbox_key, enqueue_sync_outbox,
}
use inaam_wperp.WebShop.Publishing.{
  Formats, product_images, product_videos, image_requires_sync, true_or, any_requires_sync,
  requires_media, product_requires_media_sync, product_requires_video_sync,
  enqueue_product_media_sync, enqueue_product_video_sync, queue_if, enqueue_product_sync,
}

abbrev pub stock_of : Db → StockTables
stock_of db = db.stock

abbrev pub KeepsStock : {A : Type 0} → M A → Type 0
KeepsStock = Keeps stock_of

company-KeepsStock : (company_id : Option ℕ) → KeepsStock (require_company_id company_id)
unfolding require_company_id
company-KeepsStock none db a db' h = cc
company-KeepsStock (some c) db a db' h = ground arith

type-KeepsStock : (t : String) → KeepsStock (validate_resource_type t)
unfolding validate_resource_type
type-KeepsStock t db a db' h = ground arith

key-KeepsStock :
    (env : Env) (company : ℕ) (operation type : String) (id : ℕ) (key : Option String)
    → KeepsStock (key_or_new env company operation type id key)
unfolding key_or_new
key-KeepsStock env company operation type id key db a db' h = ground arith

row-KeepsStock :
    (company : ℕ) (operation type : String) (id : ℕ) (payload key : String)
    (existing : Option SyncOutbox)
    → KeepsStock (or_new_row company operation type id payload key existing)
unfolding or_new_row
row-KeepsStock company operation type id payload key none db a db' h = ground arith
row-KeepsStock company operation type id payload key (some row) db a db' h = ground arith

outbox-KeepsStock :
    (env : Env) (company_id : Option ℕ) (operation type : String) (id : ℕ) (payload : String)
    (key : Option String)
    → KeepsStock (enqueue_sync_outbox env company_id operation type id payload key)
unfolding enqueue_sync_outbox
outbox-KeepsStock env company_id operation type id payload key =
    bind-Keeps stock_of (require_company_id company_id) _ (company-KeepsStock company_id) λ company.
      bind-Keeps stock_of (validate_resource_type type) _ (type-KeepsStock type) λ t.
        bind-Keeps stock_of (key_or_new env company operation t id key) _
          (key-KeepsStock env company operation t id key)
          λ k.
            gets-Keeps stock_of _ _
              λ existing. row-KeepsStock company operation t id payload k existing

image-KeepsStock : (web : Formats) (i : ProductImage) → KeepsStock (image_requires_sync web i)
unfolding image_requires_sync
image-KeepsStock web i db a db' h = ground arith

true_or-KeepsStock : (rest : M Bool) (b : Bool) → KeepsStock rest → KeepsStock (true_or rest b)
true_or-KeepsStock rest true keeps = pure-Keeps stock_of true
true_or-KeepsStock rest false keeps = keeps

any-KeepsStock :
    (web : Formats) (images : List ProductImage) → KeepsStock (any_requires_sync web images)
unfolding any_requires_sync
any-KeepsStock web [] = pure-Keeps stock_of false
any-KeepsStock web (i ∷ images) =
    bind-Keeps stock_of (image_requires_sync web i) _ (image-KeepsStock web i) λ requires.
      true_or-KeepsStock (any_requires_sync web images) requires (any-KeepsStock web images)

requires_media-KeepsStock :
    (web : Formats) (images : List ProductImage) (mapped : Bool)
    → KeepsStock (requires_media web images mapped)
unfolding requires_media
requires_media-KeepsStock web images true = any-KeepsStock web images
requires_media-KeepsStock web images false = pure-Keeps stock_of _

media_test-KeepsStock :
    (web : Formats) (company : ℕ) (product : Product)
    → KeepsStock (product_requires_media_sync web company product)
unfolding product_requires_media_sync
media_test-KeepsStock web company product = gets-Keeps stock_of _ _ λ mapped.
    gets-Keeps stock_of (λ db. product_images db company product.id) _
      λ images. requires_media-KeepsStock web images mapped

media-KeepsStock :
    (web : Formats) (env : Env) (company_id : Option ℕ) (product : Product)
    → KeepsStock (enqueue_product_media_sync web env company_id product)
unfolding enqueue_product_media_sync
media-KeepsStock web env company_id product =
    bind-Keeps stock_of (require_company_id company_id) _ (company-KeepsStock company_id) λ company.
      gets-Keeps stock_of (λ d. product_images d company product.id) _
        λ images.
          let state = web.images_json images in
          outbox-KeepsStock env (some company) "push_media" "product" product.id
            ("{\"images\": " <> state <> "}")
            (some (outbox_key (web.sha256 state) env company "push_media" "product" product.id))

videos-KeepsStock :
    (web : Formats) (env : Env) (company_id : Option ℕ) (product : Product)
    → KeepsStock (enqueue_product_video_sync web env company_id product)
unfolding enqueue_product_video_sync
videos-KeepsStock web env company_id product =
    bind-Keeps stock_of (require_company_id company_id) _ (company-KeepsStock company_id) λ company.
      gets-Keeps stock_of (λ d. product_videos d product.id) _
        λ videos.
          let state = web.videos_json videos in
          outbox-KeepsStock env (some company) "push_videos" "product" product.id
            ("{\"videos\": " <> state <> "}")
            (some (outbox_key (web.sha256 state) env company "push_videos" "product" product.id))

queue_if-KeepsStock :
    (push : M SyncOutbox) (b : Bool) → KeepsStock push → KeepsStock (queue_if push b)
unfolding queue_if
queue_if-KeepsStock push true keeps = bind-Keeps stock_of push _ keeps λ row. pure-Keeps stock_of tt
queue_if-KeepsStock push false keeps = pure-Keeps stock_of tt

pub enqueue_product_sync-KeepsStock :
    (web : Formats) (env : Env) (company_id : Option ℕ) (product : Product)
    → KeepsStock (enqueue_product_sync web env company_id product)
unfolding enqueue_product_sync
enqueue_product_sync-KeepsStock web env company_id product =
    bind-Keeps stock_of (require_company_id company_id) _ (company-KeepsStock company_id) λ company.
      bind-Keeps stock_of (lift (λ db. web.product_json db product)) _ (lift-Keeps stock_of _)
        λ payload.
          let key = outbox_key (web.sha256 payload) env company "push" "product" product.id in
          bind-Keeps stock_of
            (enqueue_sync_outbox env (some company) "push" "product" product.id payload (some key))
            _ (outbox-KeepsStock env (some company) "push" "product" product.id payload (some key))
            λ outbox.
              bind-Keeps stock_of (product_requires_media_sync web company product) _
                (media_test-KeepsStock web company product)
                λ with_images.
                  bind-Keeps stock_of _ _
                    (queue_if-KeepsStock _ with_images
                      (media-KeepsStock web env (some company) product))
                    λ u.
                      gets-Keeps stock_of (product_requires_video_sync company product) _
                        λ with_videos.
                          bind-Keeps stock_of _ _
                            (queue_if-KeepsStock _ with_videos
                              (videos-KeepsStock web env (some company) product))
                            λ v. pure-Keeps stock_of outbox
