-- ===== src/Tests.antt =====
-- Sample classes, values and calls, and the theorems at them.
mod Records
mod Stores
mod Codecs
mod AvroRecords
mod AvroMessages
mod AvroDeliveries
mod AvroThreads
mod Serializers
mod Consumers
mod Producers
mod Deliveries
mod Sessions
