-- ===== src/Api/Requests.antt =====
-- The requests of `ApiService` to the indexer, each a path that is downloaded below `baseUrl`.
use blockcore_gateway.Common.{ℕ, Bool, Option, [], ◌++◌, if◌then◌else◌}
use blockcore_gateway.Js.Number.{decimal}
use blockcore_gateway.Js.Text.{Text, text}
use blockcore_gateway.Js.Value.{Value}
use blockcore_gateway.Api.{Result, Fetched}
use blockcore_gateway.Api.Download.{download, resolve}

-- `fetch` is the browser's; `base` is the service's `baseUrl`.
module _ (fetch : Text → Fetched) (base : Option Text) where
  download_relative : Text → Result Value
  download_relative path = download (resolve base path) (fetch (resolve base path))

  -- `request` and `requestRelative` leave the response as it is.
  unfoldable pub request_relative : Text → Fetched
  request_relative path = fetch (resolve base path)

  load_setups : Result Value
  load_setups =
      download (text "https://chains.blockcore.net/CHAINS.json")
        (fetch (text "https://chains.blockcore.net/CHAINS.json"))

  get_info : Result Value
  unfolding download_relative
  get_info = download_relative (text "/stats/info")

  -- The parameter `transactions` is not used.
  get_last_block : Result Value
  unfolding download_relative
  get_last_block = download_relative (text "/query/block/latest")

  get_blocks : ℕ → ℕ → Result Value
  unfolding download_relative
  get_blocks offset limit =
      download_relative
        (text "/query/block?offset=" ++ (decimal offset ++ (text "&limit=" ++ decimal limit)))

  get_blocks_request : ℕ → ℕ → Result Value
  unfolding download_relative
  get_blocks_request offset limit =
      download_relative
        (text "/query/block?offset=" ++ (decimal offset ++ (text "&limit=" ++ decimal limit)))

  -- The pages pass the height as it stands in the route.
  get_block_by_height : Text → Result Value
  unfolding download_relative
  get_block_by_height index = download_relative (text "/query/block/index/" ++ index)

  get_block_by_hash : Text → Result Value
  unfolding download_relative
  get_block_by_hash hash = download_relative (text "/query/block/" ++ hash)

  get_transaction : Text → Result Value
  unfolding download_relative
  get_transaction hash = download_relative (text "/query/transaction/" ++ hash)

  get_address : Text → Bool → Result Value
  unfolding download_relative
  get_address address transactions =
      download_relative
        (text "/query/address/" ++ (address ++ (if transactions then text "/transactions" else [])))

  -- `date` is the date as `toISOString` writes it.
  get_peers : Text → Result Value
  unfolding download_relative
  get_peers date = download_relative (text "/stats/peers/" ++ date)

  -- `request`
  request : Text → Fetched
  request url = fetch url
