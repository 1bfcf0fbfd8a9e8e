-- ===== src/Domain.antt =====
-- consumer_service/app/domain/models.py and the events that the consumer decodes.
pub mod Value
pub mod Models
pub mod Result
