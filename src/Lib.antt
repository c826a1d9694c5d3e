-- ===== src/Lib.antt =====
-- Cloudinfo: a service that scrapes the machines, prices, images and versions of cloud providers
-- into a store, and answers queries from it.
--
-- The parts and their files. Paths are those of the repository.
--   * internal/cloudinfo/types: the data of the program. Types models it; Prelude has what it
--     stands on: Go maps as lists of entries in the order of a visit (Maps), Go strings (Text),
--     float64 by its bit pattern (Float), results with an error (Result).
--   * internal/cloudinfo/store.go: the interface of the store and the texts of its keys. In Store.Key
--     a key is a constructor with names, and `key_text` its text. Store.Interface has the interface
--     as a record of `fetch`, `put` and `drop` with laws; `get_vm`, `store_vm` and so on are its
--     methods.
--   * internal/app/cloudinfo/cistore/go-cache.go: Store.GoCache has each method of
--     `cacheProductStore` over the package go-cache, which is a parameter (Store.Cache). Its instance
--     `go_cache_store` implements the interface.
--   * internal/app/cloudinfo/cistore/redis.go and cassandra.go: Store.Redis and Store.Cassandra, the
--     methods of both stores over a server that is a parameter (Store.KeyValue). What a server does
--     with a call is an argument of the method; Redis may carry out a command whose answer is lost.
--     Json has what `encoding/json` makes of the values.
--   * internal/cloudinfo/query.go and instance_type.go: Query and InstanceType, the filters and the
--     query of instance types over an interface of the store.
--   * internal/cloudinfo/cloudinfo.go: CloudInfo, the reads of the API over the interface.
--   * internal/cloudinfo/scrape.go: Scrape has the steps of a run as functions on a `World`, which is
--     the store and the list of effects on the outside (handled errors, reports of failures, the
--     event at the end). Scrape.Prices has the goroutines of the renewal of prices: any merge of
--     their calls is a run. The client of a provider, `CloudInfoer`, is a parameter.
--   * internal/app/cloudinfo/loader: Loader has both loaders and the strategies of the files, with
--     Loader.Manager for the manager of the services. What viper reads is a parameter.
--   * internal/cloudinfo/region.go, service.go and provider.go: Listing, the lists of the GraphQL
--     API; internal/app/cloudinfo/api/validate.go: Validate, the checks of a request's path.
--   * internal/cloudinfo/providers: Providers.DigitalOcean, Providers.Azure, Providers.Amazon and
--     Providers.Google have each method of the four clients as a function of what the provider's API
--     answers. Providers.DigitalOcean builds a `CloudInfoer` of the scraping from them. In Providers.Azure,
--     RegionIds is `toRegionID`, MachineTypes the types of a meter, Meters `Initialize`, and Client the
--     other methods with the categories. In Providers.Amazon, PriceData reads an entry of the price
--     list, Images and Spot have the images and the spot prices, and Client the other methods. In
--     Providers.Google, Machines has the machines, Prices the prices, and Client the methods;
--     amounts of money, vCPUs and memory are natural numbers there.
-- The scraping writes into the store, the loader copies from one service to another within it, and
-- the reads, the lists and the checks answer from it; all of them use the interface of
-- Store.Interface and nothing else of it.
--
-- Every loop of the source but one is a structural recursion over the list or text that it ranges
-- over. The loop over the pages of DigitalOcean runs on fuel, of which as many rounds as there are
-- pages are enough. Instants and expirations are natural numbers.
--
-- Assumed of code outside of the repository: go-cache gives back what was set until it expires
-- (Store.Cache, with a table that does so), a server gives back what was set under a key
-- (Store.KeyValue), and a client's answers stay the same during a run. Parameters are also the
-- arithmetic of floats, `strconv.ParseFloat`, `fmt.Sprint` of a float and
-- `time.Parse`. That no name in a key holds a slash is a hypothesis where a statement needs it.
--
-- Not modelled: logging, metrics and tracing; the timers of the driver of the scraping; the REST and
-- GraphQL transports; the clients of Alibaba and Oracle; the commands.
pub mod Prelude
pub mod Types
pub mod Json
pub mod Store
pub mod Query
pub mod InstanceType
pub mod CloudInfo
pub mod Scrape
pub mod Providers
pub mod Loader
pub mod Listing
pub mod Validate
